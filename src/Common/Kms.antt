-- ===== src/Common/Kms.antt =====
-- common/kms.go: encryption with a KMS data key and secretbox, and decryption.
-- The KMS service, gob, base64 and secretbox are parameters.
pub mod RoundTrip
use awstools.Prelude.{
  ℕ, Bool, true, false, ◌&&◌, Option, none, some, List, [], ◌∷◌, Result, ok, err, ◌>>=◌, length,
  take, drop, ltb, if◌then◌else◌, ◌==◌, ◌-◌, ◌++◌,
}
use awstools.Prelude.Text.{Text, codes, eq_text}

-- type payload
pub record Payload : Type 0 where
  pub key : Text
  pub nonce : Text
  pub message : Text

-- GenerateDataKeyOutput
pub record DataKey : Type 0 where
  pub ciphertext_blob : Text
  pub plaintext : Text

-- What the code calls and does not implement. `random` is the reader of crypto/rand.
pub record KmsWorld : Type 0 where
  pub generate_data_key : Text → Result Text DataKey
  pub decrypt : Text → Result Text Text
  pub random_nonce : Result Text Text
  pub seal : Text → Text → Text → Text
  pub open_box : Text → Text → Text → Option Text
  pub gob_encode : Payload → Result Text Text
  pub gob_decode : Text → Result Text Payload
  pub base64_encode : Text → Text
  pub base64_decode : Text → Result Text Text

-- key := &[keyLength]byte{}; copy(key[:], plaintext)
pad_with : ℕ → Text → Text
pad_with ℕ.zero s = []
pad_with (ℕ.suc n) [] = 0 ∷ pad_with n []
pad_with (ℕ.suc n) (x ∷ s) = x ∷ pad_with n s

unfoldable pub box_key : Text → Text
unfolding pad_with
box_key plaintext = pad_with 32 plaintext

-- EncryptWithKMSAndSecretBox
unfoldable pub encrypt_with_kms_and_secret_box : KmsWorld → Text → Text → Result Text Text
encrypt_with_kms_and_secret_box w plaintext key_id = do
  data_key ← w.generate_data_key key_id
  nonce ← w.random_nonce
  buf ← w.gob_encode (record {
    key = data_key.ciphertext_blob;
    nonce = nonce;
    message = w.seal plaintext nonce (box_key data_key.plaintext);
  })
  ok (w.base64_encode buf)

-- content[6] == 0x07, and content[7:14] is "payload", where there are more than 14 bytes.
unfoldable pub uses_secret_box : Text → Bool
uses_secret_box content =
    ltb 14 (length content)
    && (eq_text (take 1 (drop 6 content)) (7 ∷ [])
        && eq_text (take 7 (drop 7 content)) (codes "payload"))

open_payload : KmsWorld → Payload → Result Text Text
open_payload w p = do
  plaintext ← w.decrypt p.key
  elim (w.open_box p.message p.nonce (box_key plaintext)) [
    | none ↦ err (codes "failed to open secretbox")
    | some message ↦ ok message
  ]

-- DecryptWithKMS
unfoldable pub decrypt_with_kms : KmsWorld → Text → Result Text Text
unfolding open_payload
decrypt_with_kms w ciphertext = do
  content ← w.base64_decode ciphertext
  if uses_secret_box content then (w.gob_decode content >>= open_payload w) else w.decrypt content
