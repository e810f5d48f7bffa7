-- ===== src/Common/Kms/RoundTrip.antt =====
-- Decryption undoes encryption.
use awstools.Prelude.{◌≡◌, some, true, ok, >>=-eq-ok, ok-injective}
use awstools.Prelude.Text.{Text}
use awstools.Common.Kms.{
  KmsWorld, Payload, DataKey, box_key, encrypt_with_kms_and_secret_box, uses_secret_box,
  decrypt_with_kms,
}

-- What the code relies on of KMS, gob, base64 and secretbox: each undoes its counterpart, and the
-- encoding of a payload carries the name of its type where DecryptWithKMS looks for it.
pub record IsFaithful (w : KmsWorld) : Type 0 where
  pub data_key :
      (key_id : Text) (d : DataKey)
      → w.generate_data_key key_id ≡ ok d
      → w.decrypt d.ciphertext_blob ≡ ok d.plaintext
  pub box : (m nonce key : Text) → w.open_box (w.seal m nonce key) nonce key ≡ some m
  pub gob : (p : Payload) (buf : Text) → w.gob_encode p ≡ ok buf → w.gob_decode buf ≡ ok p
  pub named : (p : Payload) (buf : Text) → w.gob_encode p ≡ ok buf → uses_secret_box buf ≡ true
  pub base64 : (s : Text) → w.base64_decode (w.base64_encode s) ≡ ok s

-- If KMS and the packages for the envelope are faithful, DecryptWithKMS turns what
-- EncryptWithKMSAndSecretBox returned back into the plaintext.
pub decrypt-encrypt :
    (w : KmsWorld) (plaintext key_id ciphertext : Text)
    → IsFaithful w
    → encrypt_with_kms_and_secret_box w plaintext key_id ≡ ok ciphertext
    → decrypt_with_kms w ciphertext ≡ ok plaintext
unfolding encrypt_with_kms_and_secret_box decrypt_with_kms
decrypt-encrypt w plaintext key_id ciphertext h e =
    let (d, generated, e1) = >>=-eq-ok (w.generate_data_key key_id) _ e in
    let (nonce, random, e2) = >>=-eq-ok w.random_nonce _ e1 in
    let (buf, encoded, e3) = >>=-eq-ok (w.gob_encode _) _ e2 in
    rw (
      ← ok-injective e3,
      h.base64 buf,
      h.named _ buf encoded,
      h.gob _ buf encoded,
      h.data_key key_id d generated,
      h.box plaintext nonce (box_key d.plaintext),
    )
