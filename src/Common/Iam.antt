-- ===== src/Common/Iam.antt =====
-- common/iam.go: the configuration of a session. The environment, strings.TrimSpace, files, standard
-- input and STS are parameters; a pointer is an Option.
pub mod Promises
pub mod Retrieval
use awstools.Prelude.{
  ℕ, Bool, true, false, not, ◌&&◌, ◌==◌, Option, none, some, List, [], ◌∷◌, ◌++◌, Result, ok, err,
  ◌>>=◌, ◌>>◌, map_err, if◌then◌else◌,
}
use awstools.Prelude.Text.{Text, codes, eq_text, is_empty}

pub record SessionFlags : Type 0 where
  pub role_arn : Option Text
  pub role_external_id : Option Text
  pub role_session_name : Option Text
  pub role_policy : Option Text
  pub region : Option Text
  pub mfa_serial_number : Option Text
  pub mfa_token_code : Option Text
  pub duration : Option ℕ

-- How AssumeRoleProvider gets the token of an MFA device.
pub data Token : Type 0 where
  no_token : Token
  from_stdin : Token
  token_code : Text → Token

-- stscreds.AssumeRoleProvider
pub record AssumeRoleProvider : Type 0 where
  pub external_id : Option Text
  pub role_session_name : Text
  pub duration : ℕ
  pub policy : Option Text
  pub serial_number : Option Text
  pub token : Token

pub data Credentials : Type 0 where
  -- those of the session
  default : Credentials
  assume_role : Text → AssumeRoleProvider → Credentials
  -- SessionTokenProvider, with the flags
  session_token : SessionFlags → Credentials

pub record Config : Type 0 where
  pub region : Text
  pub credentials : Credentials

pub data Failure : Type 0 where
  fatal : Text → Failure
  panic : Text → Failure
  nil_pointer : Failure

pub record CredentialsValue : Type 0 where
  pub access_key_id : Text
  pub secret_access_key : Text
  pub session_token : Text

pub record IamWorld : Type 0 where
  pub getenv : Text → Text
  pub trim_space : Text → Text
  pub read_file : Text → Result Text Text
  pub stdin_token : Result Text Text
  -- the region, the serial number and the code; Credentials of the output is a pointer
  pub get_session_token : Text → Option Text → Text → Result Text (Option CredentialsValue)
  -- the provider that stscreds.NewCredentials gives to the function
  pub new_provider : AssumeRoleProvider

-- *p
abbrev pub deref : {A : Type 0} → Option A → Result Failure A
deref none = err nil_pointer
deref (some a) = ok a

-- p != nil && *p != ""
abbrev pub is_given : Option Text → Bool
is_given none = false
is_given (some s) = not (is_empty s)

module _ (w : IamWorld) where
  -- The loop over the two keys of the environment.
  unfoldable pub check_trimmed : List Text → Result Failure (Unit {0})
  check_trimmed [] = ok tt
  check_trimmed (key ∷ keys) =
      let rest = check_trimmed keys in
      let value = w.getenv key in
      if is_empty value
      then rest
      else if eq_text (w.trim_space value) value
      then rest
      else err (fatal (key ++ codes " has trailing spaces, please check your config"))

  abbrev pub or_else : Text → Text → Text
  or_else [] other = other
  or_else (c ∷ s) other = c ∷ s

  abbrev pub credential_keys : List Text
  credential_keys = codes "AWS_ACCESS_KEY_ID" ∷ codes "AWS_SECRET_ACCESS_KEY" ∷ []

  -- NewConfig
  unfoldable pub new_config : Text → Result Failure Config
  unfolding check_trimmed
  new_config region =
      check_trimmed credential_keys
      >> ok (record {
        region = or_else (or_else region (w.getenv (codes "AWS_REGION"))) (codes "eu-west-1");
        credentials = default;
      })

  abbrev pub policy_file : Result Text Text → Result Failure (Option Text)
  policy_file (ok bytes) = ok (some bytes)
  policy_file (err e) = err (panic (codes "failed to load role policy: " ++ e))

  -- p.Policy: the text of the flag if it starts with a brace, or else that of the file.
  unfoldable pub role_policy_of : Text → Option Text → Result Failure (Option Text)
  role_policy_of [] old = ok old
  role_policy_of (c ∷ s) old =
      if c == b'{' then ok (some (c ∷ s)) else policy_file (w.read_file (c ∷ s))

  abbrev pub set_external_id : Text → AssumeRoleProvider → AssumeRoleProvider
  set_external_id [] p = p
  set_external_id (c ∷ s) p = record p { external_id = some (c ∷ s) }

  abbrev pub set_session_name : Text → AssumeRoleProvider → AssumeRoleProvider
  set_session_name [] p = p
  set_session_name (c ∷ s) p = record p { role_session_name = c ∷ s }

  abbrev pub set_duration : Option ℕ → AssumeRoleProvider → AssumeRoleProvider
  set_duration none p = p
  set_duration (some d) p = record p { duration = d }

  abbrev pub token_of : Text → Token
  token_of [] = from_stdin
  token_of (c ∷ s) = token_code (c ∷ s)

  -- The MFA device; the code is read only if there is one.
  unfoldable pub set_mfa :
      SessionFlags → Text → AssumeRoleProvider → Result Failure AssumeRoleProvider
  set_mfa flags [] p = ok p
  set_mfa flags (c ∷ s) p = do
    code ← deref flags.mfa_token_code
    ok (record p { serial_number = some (c ∷ s); token = token_of code })

  -- The function that AssumeRoleConfig gives to stscreds.NewCredentials.
  unfoldable pub configure_provider :
      SessionFlags → AssumeRoleProvider → Result Failure AssumeRoleProvider
  unfolding role_policy_of set_mfa
  configure_provider flags p = do
    external_id ← deref flags.role_external_id
    session_name ← deref flags.role_session_name
    role_policy ← deref flags.role_policy
    let q =
        set_duration flags.duration (set_session_name session_name (set_external_id external_id p))
    policy ← role_policy_of role_policy q.policy
    serial ← deref flags.mfa_serial_number
    set_mfa flags serial (record q { policy = policy })

  -- The credentials of AssumeRoleConfig.
  unfoldable pub credentials_of : SessionFlags → Config → Result Failure Config
  unfolding configure_provider
  credentials_of flags conf =
      if is_given flags.role_arn
      then (do
        role_arn ← deref flags.role_arn
        provider ← configure_provider flags w.new_provider
        ok (record conf { credentials = assume_role role_arn provider }))
      else if is_given flags.mfa_serial_number
      then ok (record conf { credentials = session_token flags })
      else ok conf

  -- AssumeRoleConfig
  unfoldable pub assume_role_config : SessionFlags → Result Failure Config
  unfolding new_config credentials_of
  assume_role_config flags = do
    region ← deref flags.region
    conf ← new_config region
    credentials_of flags conf

  abbrev pub no_credentials : CredentialsValue
  no_credentials = record { access_key_id = []; secret_access_key = []; session_token = [] }

  -- What Retrieve returns: a value and an error, or a failure of the program.
  abbrev pub Retrieved : Type 0
  Retrieved = Result Failure (CredentialsValue × Option Text)

  abbrev pub retrieved : Result Text (Option CredentialsValue) → Retrieved
  retrieved (err e) = ok (no_credentials, some e)
  retrieved (ok none) = ok (no_credentials, some (codes "Could not get credentials"))
  retrieved (ok (some credentials)) = ok (credentials, none)

  -- From the input on, with a code.
  unfoldable pub retrieve_with : SessionFlags → Text → Retrieved
  unfolding new_config
  retrieve_with flags code = do
    region ← deref flags.region
    conf ← new_config region
    retrieved (w.get_session_token conf.region flags.mfa_serial_number code)

  -- An error of the standard input is returned as no error.
  abbrev pub retrieve_code : SessionFlags → Text → Retrieved
  retrieve_code flags [] = elim w.stdin_token [
    | err e ↦ ok (no_credentials, none)
    | ok code ↦ retrieve_with flags code
  ]
  retrieve_code flags (c ∷ s) = retrieve_with flags (c ∷ s)

  -- (*SessionTokenProvider).Retrieve
  unfoldable pub retrieve : SessionFlags → Retrieved
  unfolding retrieve_with
  retrieve flags = deref flags.mfa_token_code >>= λ code. retrieve_code flags code
