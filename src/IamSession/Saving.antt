-- ===== src/IamSession/Saving.antt =====
-- When iam/session/main.go saves a profile.
use awstools.Prelude.{
  ◌≡◌, refl, arith, Bool, true, false, ◌||◌, Result, ok, >>=-eq-ok, ok-injective, Bool-cases, inl,
  inr,
}
use awstools.Prelude.Text.{Text, is_empty}
use awstools.Common.Iam.{
  SessionFlags, Config, session_token, Failure, deref, is_given, credentials_of, configure_provider,
  new_config, assume_role_config,
}
use awstools.IamSession.{
  IniFiles, SessionWorld, Flags, has_credentials, saves_own, refuse_if, check_flags, print_url,
  with_session, Run, iam_session,
}

module _ (w : SessionWorld) where
  -- A role or a device is given.
  abbrev pub HasOther : Flags → Type 0
  HasOther flags =
      is_given flags.session.role_arn || is_given flags.session.mfa_serial_number ≡ true

  saves_own-false :
      (flags : Flags)
      → is_empty flags.save_profile ≡ false
      → saves_own w flags ≡ ok false
      → HasOther flags
  saves_own-false flags saves h = ground arith

  check_flags-HasOther :
      (flags : Flags) (u : Unit {0})
      → is_empty flags.save_profile ≡ false
      → check_flags w flags ≡ ok u
      → HasOther flags
  unfolding check_flags
  check_flags-HasOther flags u saves h =
      let (own, e, h1) = >>=-eq-ok (saves_own w flags) _ h in
      let (v, refused, _) = >>=-eq-ok (refuse_if w own _) _ h1 in
      saves_own-false flags saves (not_refused own _ v e refused)
    where
      not_refused :
          (own : Bool) (message : Text) (v : Unit {0})
          → saves_own w flags ≡ ok own
          → refuse_if w own message ≡ ok v
          → saves_own w flags ≡ ok false
      not_refused true message v e r = absurd (ground arith)
      not_refused false message v e r = e

  credentials_of-given :
      (flags : SessionFlags) (conf result : Config)
      → is_given flags.role_arn || is_given flags.mfa_serial_number ≡ true
      → credentials_of w.iam flags conf ≡ ok result
      → has_credentials result.credentials ≡ true
  unfolding credentials_of
  credentials_of-given flags conf result other h = elim (Bool-cases (is_given flags.role_arn)) [
    | inl role ↦
        let (arn, _, h1) = >>=-eq-ok (deref flags.role_arn) _ (rw (role, credentials_of) at h) in
        let (p, _, h2) = >>=-eq-ok (configure_provider w.iam flags w.iam.new_provider) _ h1 in
        rw (← ok-injective h2) refl
    | inr own ↦
        let device : is_given flags.mfa_serial_number ≡ true = rw own at other in
        let h1 : ◌≡◌ {A = Result Failure Config}
            (ok (record conf { credentials = session_token flags })) (ok result) =
          rw (own, credentials_of, device) at h in
        rw (← ok-injective h1) refl
  ]

  assume_role_config-given :
      (flags : SessionFlags) (result : Config)
      → is_given flags.role_arn || is_given flags.mfa_serial_number ≡ true
      → assume_role_config w.iam flags ≡ ok result
      → has_credentials result.credentials ≡ true
  unfolding assume_role_config
  assume_role_config-given flags result other h =
      let (region, _, h1) = >>=-eq-ok (deref flags.region) _ h in
      let (conf, _, h2) = >>=-eq-ok (new_config w.iam region) _ h1 in
      credentials_of-given flags conf result other h2

  -- If the flags ask for a profile and the program does not fail, it goes on with the credentials of
  -- a role or of a device, not with those that were there before.
  pub iam_session-saved :
      (ini : IniFiles) (flags : Flags) (run : Run w ini)
      → is_empty flags.save_profile ≡ false
      → iam_session w ini flags ≡ ok run
      → (conf : Config) × (assume_role_config w.iam flags.session ≡ ok conf)
        × (has_credentials conf.credentials ≡ true)
        × (with_session w ini flags conf ≡ ok run)
  unfolding iam_session
  iam_session-saved ini flags run saves h =
      let (u, checked, h1) = >>=-eq-ok (check_flags w flags) _ h in
      let (o, _, h2) = >>=-eq-ok w.open_session _ h1 in
      let (conf, opened, h3) = >>=-eq-ok (assume_role_config w.iam flags.session) _ h2 in
      let (p, _, h4) = >>=-eq-ok (print_url w flags.print_identity_url) _ h3 in
      (
        conf,
        opened,
        assume_role_config-given flags.session conf (check_flags-HasOther flags u saves checked)
            opened,
        h4,
      )
