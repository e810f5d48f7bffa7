-- ===== src/Lambda/Handler.antt =====
-- lambda/sign-ssh-key/handler.go: the request and the handler.
pub mod Granted
use awstools.Prelude.{
  ℕ, Bool, true, false, not, Option, none, some, List, [], ◌∷◌, ◌++◌, Result, ok, err, ◌>>=◌, ◌>>◌,
  map_err, if◌then◌else◌,
}
use awstools.Prelude.Text.{Text, codes, eq_text, is_empty}
use awstools.Prelude.Int.{ℤ, pos, ltb_ℤ, nanoseconds, to_int64, whole_seconds}
use awstools.Common.Arn.{Arn, parse_arn}
use awstools.Common.Config.Refresh.{ConfigWorld}
use awstools.Common.Sts.{StsWorld, StsError, Identity, sts_fetch_identity_url}
use awstools.Lambda.Ip.{IpNet, validate_ip_ranges}
use awstools.Lambda.Environment.{Environment, load_environment}
use awstools.Lambda.Signer.{Certificate, SshWorld, Signer, init, sign}

pub record SignSshKeyResponse : Type 0 where
  pub certificate : Text
  pub duration : ℤ
  -- in seconds since the epoch
  pub valid_before : ℕ

pub record SignSshKeyEvent : Type 0 where
  pub identity_url : Text
  pub environment : Text
  pub ssh_public_key : Text
  pub duration : Option ℤ
  pub source_addresses : List Text

pub data HandlerError : Type 0 where
  invalid_event environment_failed invalid_source_addresses : Text → HandlerError
  duration_exceeds_maximum not_an_iam_user identity_arn_invalid empty_certificate : HandlerError
  caller_not_verified : StsError → HandlerError
  signer_failed uuid_failed certificate_failed : Text → HandlerError
  -- a nil pointer is read
  nil_pointer_panic : HandlerError

pub record World : Type 0 where
  pub config : ConfigWorld
  pub filename : Text → Text
  pub decode_environment : Text → Result Text Environment
  pub parse_cidr : Text → Result Text IpNet
  pub sts : StsWorld
  pub ssh : SshWorld
  pub generate_uuid : Result Text Text

unfoldable pub require : Bool → HandlerError → Result HandlerError (Unit {0})
require true e = ok tt
require false e = err e

-- *p
unfoldable pub deref {ℓ} : {A : Type ℓ} → Option A → Result HandlerError A
deref none = err nil_pointer_panic
deref (some a) = ok a

-- event.Duration != nil && *event.Duration < 1
abbrev pub is_below_one : Option ℤ → Bool
is_below_one none = false
is_below_one (some d) = ltb_ℤ d (pos 1)

-- (SignSSHKeyEvent).Validate
unfoldable pub validate_event : SignSshKeyEvent → Result HandlerError (Unit {0})
unfolding require
validate_event event = do
  require (not (is_empty event.identity_url))
      (invalid_event (codes "'identity_url' not found in Event."))
  require (not (is_empty event.environment))
      (invalid_event (codes "'environment' not found in Event."))
  require (not (is_empty event.ssh_public_key))
      (invalid_event (codes "'ssh_public_key' not found in Event."))
  require (not (is_below_one event.duration)) (invalid_event (codes "'duration' must be >= 1."))

-- duration := environment.ValidityMaxDuration, unless the event has one
abbrev pub choose_duration : Option ℤ → ℤ → ℤ
choose_duration none maximum = maximum
choose_duration (some d) maximum = d

module _ (w : World) (identity_url_max_age : ℤ) where
  -- The part of the handler that decides: the environment, the source addresses, the duration.
  unfoldable pub check_request : SignSshKeyEvent → Result HandlerError (Environment × List Text × ℤ)
  unfolding validate_event deref
  check_request event = do
    validate_event event
    environment ←
        map_err environment_failed
          (load_environment w.config w.filename w.decode_environment event.environment)
    source_addresses ←
        map_err invalid_source_addresses
          (validate_ip_ranges w.parse_cidr event.source_addresses environment.source_addresses)
    maximum ← deref environment.validity_max_duration
    require (not (ltb_ℤ maximum (choose_duration event.duration maximum))) duration_exceeds_maximum
    ok (environment, source_addresses, choose_duration event.duration maximum)

  -- The caller: the ARN as text and parsed.
  unfoldable pub check_caller : SignSshKeyEvent → Result HandlerError (Text × Arn)
  unfolding deref
  check_caller event = do
    identity ←
        map_err caller_not_verified
          (sts_fetch_identity_url w.sts event.identity_url identity_url_max_age).1
    arn ← deref identity.arn
    user ← map_err (λ e. identity_arn_invalid) (parse_arn arn)
    require (eq_text user.resource_type (codes "user")) not_an_iam_user
    ok (arn, user)

  unfoldable pub make_certificate :
      SignSshKeyEvent → Environment → List Text → ℤ → Text → Arn → Result HandlerError Certificate
  unfolding deref
  make_certificate event environment source_addresses duration arn user = do
    offset ← deref environment.validity_start_offset
    signer ← map_err signer_failed (
        init w.ssh environment.ca.private_key environment.ca.private_key_passphrase
          environment.ca.public_key (to_int64 (nanoseconds offset))
          (to_int64 (nanoseconds duration)))
    uuid ← map_err uuid_failed w.generate_uuid
    map_err certificate_failed (
        sign w.ssh signer event.ssh_public_key (arn ++ (codes "/" ++ uuid)) (user.resource ∷ [])
          source_addresses)

  -- Handler
  unfoldable pub handle : SignSshKeyEvent → Result HandlerError SignSshKeyResponse
  unfolding check_request check_caller make_certificate
  handle event = check_request event >>= λ (request : Environment × List Text × ℤ).
      check_caller event >>= λ (caller : Text × Arn). do
        certificate ← make_certificate event request.0 request.1 request.2 caller.0 caller.1
        require (not (is_empty (w.ssh.marshal_authorized_key certificate))) empty_certificate
        ok (record {
          certificate = w.ssh.marshal_authorized_key certificate;
          duration = request.2;
          valid_before = certificate.valid_before;
        })
