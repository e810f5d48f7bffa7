-- ===== src/Tests/Kms.antt =====
-- A faithful world for common/kms.go, in which keys are not secret, and a message that passes it.
use awstools.Prelude.{
  ◌≡◌, refl, ap, arith, true, some, [], ◌∷◌, ◌++◌, length, take, drop, Result, ok, err,
  ok-injective,
}
use awstools.Prelude.Text.{Text, codes}
use awstools.Common.Kms.{
  Payload, KmsWorld, encrypt_with_kms_and_secret_box, uses_secret_box, decrypt_with_kms,
}
use awstools.Common.Kms.RoundTrip.{IsFaithful, decrypt-encrypt}

abbrev header : Text
header = codes "......" ++ (7 ∷ (codes "payload" ++ (codes ".")))

abbrev print_payload : Payload → Text
print_payload p = header ++ (length p.key ∷ (p.key ++ (length p.nonce ∷ (p.nonce ++ p.message))))

abbrev read_message : Text → Text → Result Text Payload
read_message key [] = err (codes "EOF")
read_message key (n ∷ rest) = ok (record { key = key; nonce = take n rest; message = drop n rest })

abbrev read_key : Text → Result Text Payload
read_key [] = err (codes "EOF")
read_key (n ∷ rest) = read_message (take n rest) (drop n rest)

abbrev pub clear_kms : KmsWorld
clear_kms = record {
  generate_data_key = λ key_id. ok (record { ciphertext_blob = key_id; plaintext = key_id });
  decrypt = λ s. ok s;
  random_nonce = ok (codes "nonce");
  seal = λ m nonce key. m;
  open_box = λ m nonce key. some m;
  gob_encode = λ p. ok (print_payload p);
  gob_decode = λ s. read_key (drop 15 s);
  base64_encode = λ s. s;
  base64_decode = λ s. ok s;
}

take_all : (s t : Text) → take (length s) (s ++ t) ≡ s
take_all [] t = refl
take_all (x ∷ s) t = ap (λ (r : Text). x ∷ r) (take_all s t)

drop_all : (s t : Text) → drop (length s) (s ++ t) ≡ t
drop_all [] t = refl
drop_all (x ∷ s) t = drop_all s t

read-print : (p : Payload) → read_key (drop 15 (print_payload p)) ≡ ok p
read-print p = rw (
  take_all p.key (length p.nonce ∷ (p.nonce ++ p.message)),
  drop_all p.key (length p.nonce ∷ (p.nonce ++ p.message)),
  take_all p.nonce p.message,
  drop_all p.nonce p.message,
)

print-uses_secret_box : (p : Payload) → uses_secret_box (print_payload p) ≡ true
unfolding uses_secret_box
print-uses_secret_box p = ground arith

pub clear_kms-IsFaithful : IsFaithful clear_kms
clear_kms-IsFaithful = record {
  data_key = λ key_id d e. rw (← ok-injective e) refl;
  box = λ m nonce key. refl;
  gob = λ p buf e. rw (← ok-injective e) (read-print p);
  named = λ p buf e. rw (← ok-injective e) (print-uses_secret_box p);
  base64 = λ s. refl;
}

-- The ciphertext of a message.
abbrev pub hello_sealed : Text
hello_sealed =
    print_payload (record { key = codes "id"; nonce = codes "nonce"; message = codes "hello" })

pub encrypt_hello :
    encrypt_with_kms_and_secret_box clear_kms (codes "hello") (codes "id") ≡ ok hello_sealed
unfolding encrypt_with_kms_and_secret_box
encrypt_hello = refl

decrypt-encrypt_example : decrypt_with_kms clear_kms hello_sealed ≡ ok (codes "hello")
decrypt-encrypt_example =
    decrypt-encrypt clear_kms (codes "hello") (codes "id") hello_sealed clear_kms-IsFaithful
      encrypt_hello
