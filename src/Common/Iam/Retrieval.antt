-- ===== src/Common/Iam/Retrieval.antt =====
-- What Retrieve of common/iam.go returns.
use awstools.Prelude.{
  ◌≡◌, refl, arith, false, Option, none, some, [], ◌∷◌, Result, ok, err, >>=-eq-ok, Result-cases,
  ◌⊎◌, ◌↔◌, ◌∙◌, inl, inr,
}
use awstools.Prelude.Text.{Text, is_empty}
use awstools.Common.Iam.{
  SessionFlags, Config, Failure, IamWorld, CredentialsValue, deref, new_config, retrieve,
  retrieve_with, retrieve_code, retrieved, no_credentials,
}

module _ (w : IamWorld) where
  -- The code of the device: that of the flags, or else what the standard input gave.
  abbrev pub IsCode : SessionFlags → Text → Type 0
  IsCode flags code =
      ((flags.mfa_token_code ≡ some code) × (is_empty code ≡ false))
      ⊎ ((flags.mfa_token_code ≡ some []) × (w.stdin_token ≡ ok code))

  -- STS gave the credentials for this code and the device of the flags, in the region of the
  -- configuration.
  abbrev pub FromSts : SessionFlags → CredentialsValue → Type 0
  FromSts flags v =
      (code region : Text) × (conf : Config) × IsCode flags code
      × (flags.region ≡ some region)
      × (new_config w region ≡ ok conf)
      × (w.get_session_token conf.region flags.mfa_serial_number code ≡ ok (some v))

  -- The code was to come from the standard input, and could not be read.
  abbrev pub IsUnread : SessionFlags → Type 0
  IsUnread flags = (flags.mfa_token_code ≡ some []) × ((e : Text) × (w.stdin_token ≡ err e))

  retrieved_iff :
      (answer : Result Text (Option CredentialsValue)) (v : CredentialsValue)
      → (retrieved w answer ≡ ok (v, none)) ↔ (answer ≡ ok (some v))
  retrieved_iff (err e) v = ground arith
  retrieved_iff (ok none) v = ground arith
  retrieved_iff (ok (some credentials)) v = ((λ h. cc), λ h. cc)

  deref-some : (o : Option Text) (c : Text) → deref o ≡ ok c → o ≡ some c
  deref-some none c e = absurd (ground arith)
  deref-some (some d) c e = cc

  retrieve_with-FromSts :
      (flags : SessionFlags) (code : Text) (v : CredentialsValue)
      → IsCode flags code
      → retrieve_with w flags code ≡ ok (v, none)
      → FromSts flags v
  unfolding retrieve_with
  retrieve_with-FromSts flags code v is_code h =
      let (region, given, h1) = >>=-eq-ok (deref flags.region) _ h in
      let (conf, made, h2) = >>=-eq-ok (new_config w region) _ h1 in
      (
        code,
        region,
        conf,
        is_code,
        deref-some flags.region region given,
        made,
        (retrieved_iff (w.get_session_token conf.region flags.mfa_serial_number code) v).0 h2,
      )

  retrieve_with-eq-ok :
      (flags : SessionFlags) (code region : Text) (conf : Config) (v : CredentialsValue)
      → flags.region ≡ some region
      → new_config w region ≡ ok conf
      → w.get_session_token conf.region flags.mfa_serial_number code ≡ ok (some v)
      → retrieve_with w flags code ≡ ok (v, none)
  unfolding retrieve_with
  retrieve_with-eq-ok flags code region conf v given made answer =
      rw (given, retrieve_with, made, answer) refl

  retrieve_unread :
      (flags : SessionFlags) → IsUnread flags → retrieve w flags ≡ ok (no_credentials w, none)
  unfolding retrieve
  retrieve_unread flags (stdin, (e, failed)) = rw (stdin, retrieve, failed) refl

  retrieve_flag :
      (flags : SessionFlags) (code : Text)
      → flags.mfa_token_code ≡ some code
      → is_empty code ≡ false
      → retrieve w flags ≡ retrieve_with w flags code
  unfolding retrieve
  retrieve_flag flags [] given full = absurd (ground arith)
  retrieve_flag flags (c ∷ s) given full = rw (given, retrieve) refl

  retrieve_typed :
      (flags : SessionFlags) (code : Text)
      → flags.mfa_token_code ≡ some []
      → w.stdin_token ≡ ok code
      → retrieve w flags ≡ retrieve_with w flags code
  unfolding retrieve
  retrieve_typed flags code given typed = rw (given, retrieve, typed) refl

  retrieve-IsCode :
      (flags : SessionFlags) (code : Text)
      → IsCode flags code
      → retrieve w flags ≡ retrieve_with w flags code
  retrieve-IsCode flags code (inl (given, full)) = retrieve_flag flags code given full
  retrieve-IsCode flags code (inr (given, typed)) = retrieve_typed flags code given typed

  retrieve-cases :
      (flags : SessionFlags) (v : CredentialsValue)
      → retrieve w flags ≡ ok (v, none)
      → FromSts flags v ⊎ (IsUnread flags × (v ≡ no_credentials w))
  unfolding retrieve
  retrieve-cases flags v h =
      let (code, read, h1) = >>=-eq-ok (deref flags.mfa_token_code) _ h in
      by_code code (deref-some flags.mfa_token_code code read) h1
    where
      by_code :
          (code : Text)
          → flags.mfa_token_code ≡ some code
          → retrieve_code w flags code ≡ ok (v, none)
          → FromSts flags v ⊎ (IsUnread flags × (v ≡ no_credentials w))
      by_code (c ∷ s) given h1 = inl (retrieve_with-FromSts flags (c ∷ s) v (inl (given, refl)) h1)
      by_code [] given h1 = elim (Result-cases w.stdin_token) [
        | inl (typed, read) ↦
            inl (retrieve_with-FromSts flags typed v (inr (given, read)) (rw read at h1))
        | inr (e, failed) ↦
            let h2 : ◌≡◌ {A = Result Failure (CredentialsValue × Option Text)}
                (ok (no_credentials w, none)) (ok (v, none)) =
              rw failed at h1 in
            inr ((given, (e, failed)), cc)
      ]

  -- Retrieve returns a value and no error in two cases, and in both: STS gave the value for the code
  -- of the flags or the standard input, or the code could not be read from the standard input and the
  -- value is the empty credentials.
  pub retrieve_iff :
      (flags : SessionFlags) (v : CredentialsValue)
      → (retrieve w flags ≡ ok (v, none))
        ↔ (FromSts flags v ⊎ (IsUnread flags × (v ≡ no_credentials w)))
  retrieve_iff flags v = (retrieve-cases flags v, back)
    where
      back :
          FromSts flags v ⊎ (IsUnread flags × (v ≡ no_credentials w))
          → retrieve w flags ≡ ok (v, none)
      back (inl (code, region, conf, is_code, given, made, answer)) =
          retrieve-IsCode flags code is_code
          ∙ retrieve_with-eq-ok flags code region conf v given made answer
      back (inr (unread, empty)) = rw empty (retrieve_unread flags unread)
