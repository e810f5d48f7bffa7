-- ===== src/Lambda/Signer/Validity.antt =====
-- The validity window of a signed certificate.
use awstools.Prelude.{
  ◌++◌, ℕ, ◌+◌, ◌^◌, ◌/◌, ◌-◌, ◌<◌, ◌≤◌, ◌≡◌, refl, arith, List, ok, >>=-eq-ok, map_err-eq-ok,
  map_err, ok-injective,
}
use awstools.Prelude.Text.{Text, codes}
use awstools.Prelude.Int.{pos, nanoseconds, whole_seconds, to_uint64, to_int64, ◌+ℤ◌, ◌-ℤ◌}
use awstools.Lambda.Signer.{
  Certificate, SshWorld, Signer, sign, unsigned_certificate, little_endian,
}

-- A certificate that Sign returned has the window that it computed.
pub sign_fields :
    (w : SshWorld) (s : Signer) (key key_id : Text) (principals source_addresses : List Text)
    (cert : Certificate)
    → sign w s key key_id principals source_addresses ≡ ok cert
    → (serial : ℕ) × (pub_key : Text) × (w.parse_authorized_key key ≡ ok pub_key)
      × (w.sign_cert
            (unsigned_certificate w s serial pub_key key_id principals source_addresses)
            s.ca_key
          ≡ ok cert.signature)
      × (cert
          ≡ record (unsigned_certificate w s serial pub_key key_id principals source_addresses) {
            signature = cert.signature;
          })
unfolding sign
sign_fields w s key key_id principals source_addresses cert e =
    let (buf, random, e1) =
      >>=-eq-ok (map_err (λ (x : Text). codes "failed to read random bytes: " ++ x) w.random_bytes)
        _ e in
    let (pub_key, parsed, e2) =
      >>=-eq-ok
        (map_err (λ (x : Text). codes "failed to parse user public key: " ++ x)
          (w.parse_authorized_key key))
        _ e1 in
    let (signature, signed, e3) =
      >>=-eq-ok
        (map_err (λ (x : Text). codes "failed to sign user public key: " ++ x)
          (w.sign_cert
            (unsigned_certificate w s (little_endian buf) pub_key key_id principals
              source_addresses)
            s.ca_key))
        _ e2 in
    rw (← ok-injective e3) (
      little_endian buf,
      pub_key,
      map_err-eq-ok _ (w.parse_authorized_key key) parsed,
      map_err-eq-ok _ (w.sign_cert _ s.ca_key) signed,
      refl,
    )

seconds_after :
    (n d : ℕ)
    → d < 9000000000
    → whole_seconds (pos n +ℤ to_int64 (nanoseconds (pos d))) ≡ pos (n / 1000000000 + d)
unfolding whole_seconds ◌+ℤ◌ to_int64 nanoseconds
seconds_after n d h = ground arith

seconds_before :
    (n d : ℕ)
    → d < 9000000000
    → d ≤ n / 1000000000
    → whole_seconds (pos n -ℤ to_int64 (nanoseconds (pos d))) ≡ pos (n / 1000000000 - d)
unfolding whole_seconds ◌-ℤ◌ to_int64 nanoseconds
seconds_before n d h k = ground arith

-- With both readings of the clock at n nanoseconds, an offset of o seconds and a duration of d
-- seconds, a signed certificate is valid from o seconds before the whole second of n to d seconds
-- after it, if the durations stay below 9000000000 seconds and the offset does not pass the epoch.
pub sign_window :
    (w : SshWorld) (s : Signer) (key key_id : Text) (principals source_addresses : List Text)
    (cert : Certificate) (n o d : ℕ)
    → sign w s key key_id principals source_addresses ≡ ok cert
    → w.now_after ≡ pos n
    → w.now_before ≡ pos n
    → s.allowed_clock_diff ≡ to_int64 (nanoseconds (pos o))
    → s.max_ttl ≡ to_int64 (nanoseconds (pos d))
    → n < 2 ^ 63
    → o < 9000000000
    → d < 9000000000
    → o ≤ n / 1000000000
    → (cert.valid_after + o ≡ n / 1000000000) × (cert.valid_before ≡ n / 1000000000 + d)
unfolding unsigned_certificate
sign_window w s key key_id principals source_addresses cert n o d e now now' diff ttl hn ho hd
      past =
    let (serial, pub_key, parsed, signed, same) =
      sign_fields w s key key_id principals source_addresses cert e in
    rw (same, now, now', diff, ttl, seconds_before n o ho past, seconds_after n d hd)
      (
        uint64_before (n / 1000000000) o (omega arith) past,
        uint64_small (n / 1000000000 + d) (omega arith),
      )
  where
    uint64_small : (a : ℕ) → a < 2 ^ 64 → to_uint64 (pos a) ≡ a
    uint64_small a h = unfold to_uint64 in omega arith

    uint64_before : (a b : ℕ) → a < 2 ^ 63 → b ≤ a → to_uint64 (pos (a - b)) + b ≡ a
    uint64_before a b h k = unfold to_uint64 in omega arith
