-- ===== src/Common/Iam/Promises.antt =====
-- What common/iam.go promises of the configuration.
use awstools.Prelude.{
  ◌≡◌, refl, arith, true, false, Option, none, some, List, [], ◌∷◌, Result, ok, err, >>=-eq-ok,
  ok-injective, Bool-cases, ◌⊎◌, inl, inr, All,
}
use awstools.Prelude.Text.{Text, eq_text, eq_text_iff, is_empty}
use awstools.Common.Iam.{
  SessionFlags, AssumeRoleProvider, Credentials, default, assume_role, session_token, Config,
  Failure, IamWorld, deref, is_given, check_trimmed, new_config, set_mfa, configure_provider,
  role_policy_of, credentials_of, assume_role_config,
}

module _ (w : IamWorld) where
  -- The variable is empty, or has no spaces around it.
  abbrev pub IsTrimmed : Text → Type 0
  IsTrimmed key = (w.getenv key ≡ []) ⊎ (w.trim_space (w.getenv key) ≡ w.getenv key)

  check_trimmed-IsTrimmed :
      (keys : List Text) (u : Unit {0}) → check_trimmed w keys ≡ ok u → All IsTrimmed keys
  unfolding check_trimmed
  check_trimmed-IsTrimmed [] u h = tt
  check_trimmed-IsTrimmed (key ∷ keys) u h = elim (Bool-cases (is_empty (w.getenv key))) [
    | inl empty ↦ (
      inl (empty_text (w.getenv key) empty),
      check_trimmed-IsTrimmed keys u (rw (empty, check_trimmed) at h),
    )
    | inr full ↦ elim (Bool-cases (eq_text (w.trim_space (w.getenv key)) (w.getenv key))) [
      | inl same ↦ (
        inr ((eq_text_iff (w.trim_space (w.getenv key)) (w.getenv key)).0 same),
        check_trimmed-IsTrimmed keys u (rw (full, check_trimmed, same) at h),
      )
      | inr other ↦ absurd (refused (rw (full, check_trimmed, other) at h))
    ]
  ]
    where
      empty_text : (s : Text) → is_empty s ≡ true → s ≡ []
      empty_text [] e = refl
      empty_text (c ∷ s) e = ground arith

      refused : {e : Failure} → ◌≡◌ {A = Result Failure (Unit {0})} (err e) (ok u) → ⊥
      refused e = ground arith

  -- The device stands in the credentials: with the role, or in the flags of the session token.
  abbrev pub UsesMfa : Text → Credentials → Type 0
  UsesMfa serial default = ⊥
  UsesMfa serial (assume_role role_arn p) = p.serial_number ≡ some serial
  UsesMfa serial (session_token flags) = flags.mfa_serial_number ≡ some serial

  set_mfa-serial :
      (flags : SessionFlags) (serial : Text) (p q : AssumeRoleProvider)
      → is_empty serial ≡ false
      → set_mfa w flags serial p ≡ ok q
      → q.serial_number ≡ some serial
  unfolding set_mfa
  set_mfa-serial flags [] p q given h = ground arith
  set_mfa-serial flags (c ∷ s) p q given h =
      let (code, _, h1) = >>=-eq-ok (deref flags.mfa_token_code) _ h in ground arith

  deref-eq-ok : (o : Option Text) (a b : Text) → o ≡ some a → deref o ≡ ok b → b ≡ a
  deref-eq-ok none a b e h = absurd (ground arith)
  deref-eq-ok (some c) a b e h = cc

  set_mfa-read :
      (flags : SessionFlags) (s serial : Text) (p q : AssumeRoleProvider)
      → s ≡ serial
      → is_empty serial ≡ false
      → set_mfa w flags s p ≡ ok q
      → q.serial_number ≡ some serial
  set_mfa-read flags s serial p q same given h =
      set_mfa-serial flags serial p q given (rw same at h)

  is_given_lem : (o : Option Text) (a : Text) → o ≡ some a → is_empty a ≡ false → is_given o ≡ true
  is_given_lem o a e h = rw e (rw h refl)

  configure_provider-serial :
      (flags : SessionFlags) (serial : Text) (p q : AssumeRoleProvider)
      → flags.mfa_serial_number ≡ some serial
      → is_empty serial ≡ false
      → configure_provider w flags p ≡ ok q
      → q.serial_number ≡ some serial
  unfolding configure_provider
  configure_provider-serial flags serial p q device given h =
      let (e, _, h1) = >>=-eq-ok (deref flags.role_external_id) _ h in
      let (n, _, h2) = >>=-eq-ok (deref flags.role_session_name) _ h1 in
      let (r, _, h3) = >>=-eq-ok (deref flags.role_policy) _ h2 in
      let (o, _, h4) = >>=-eq-ok (role_policy_of w r _) _ h3 in
      let (s, read, h5) = >>=-eq-ok (deref flags.mfa_serial_number) _ h4 in
      set_mfa-read flags s serial _ q (deref-eq-ok flags.mfa_serial_number serial s device read)
        given h5

  credentials_of-UsesMfa :
      (flags : SessionFlags) (serial : Text) (conf result : Config)
      → flags.mfa_serial_number ≡ some serial
      → is_empty serial ≡ false
      → credentials_of w flags conf ≡ ok result
      → UsesMfa serial result.credentials
  unfolding credentials_of
  credentials_of-UsesMfa flags serial conf result device given h =
      elim (Bool-cases (is_given flags.role_arn)) [
        | inl role ↦
            let (arn, _, h2) =
              >>=-eq-ok (deref flags.role_arn) _ (rw (role, credentials_of) at h) in
            let (p, configured, h3) = >>=-eq-ok (configure_provider w flags w.new_provider) _ h2 in
            rw (← ok-injective h3)
              (configure_provider-serial flags serial w.new_provider p device given configured)
        | inr own ↦
            let h1 : ◌≡◌ {A = Result Failure Config}
                (ok (record conf { credentials = session_token flags })) (ok result) =
              rw (own, credentials_of, is_given_lem flags.mfa_serial_number serial device given) at
                h in
            rw (← ok-injective h1) device
      ]

  -- If the flags name an MFA device, no configuration is made that would do without it.
  pub assume_role_config-UsesMfa :
      (flags : SessionFlags) (serial : Text) (result : Config)
      → flags.mfa_serial_number ≡ some serial
      → is_empty serial ≡ false
      → assume_role_config w flags ≡ ok result
      → UsesMfa serial result.credentials
  unfolding assume_role_config
  assume_role_config-UsesMfa flags serial result device given h =
      let (region, _, h1) = >>=-eq-ok (deref flags.region) _ h in
      let (conf, _, h2) = >>=-eq-ok (new_config w region) _ h1 in
      credentials_of-UsesMfa flags serial conf result device given h2
