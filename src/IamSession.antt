-- ===== src/IamSession.antt =====
-- iam/session/main.go: the program that runs a command, or saves a profile, with the credentials of
-- another role. The library for INI files, the environment and the AWS clients are parameters.
pub mod Environment
pub mod Saving
use awstools.Prelude.{
  ℕ, Bool, true, false, not, ◌&&◌, ◌||◌, ◌==◌, Option, none, some, List, [], ◌∷◌, ◌++◌, Result, ok,
  err, ◌>>=◌, ◌>>◌, map_err, if◌then◌else◌,
}
use awstools.Prelude.Text.{Text, codes, eq_text, is_empty, has_prefix}
use awstools.Common.Iam.{
  SessionFlags, Credentials, default, assume_role, session_token, Config, Failure, fatal, IamWorld,
  CredentialsValue, deref, assume_role_config, no_credentials,
}

-- The operations of gopkg.in/ini.v1 on a file.
pub record IniFiles : Type 1 where
  pub File : Type 0
  pub load : Text → Result Text File
  -- GetSection returns no error
  pub has_section : File → Text → Bool
  pub delete_section : File → Text → File
  pub new_section : File → Text → Result Text File
  -- the section, the key and its value
  pub new_key : File → Text → Text → Text → Result Text File

pub record SessionWorld : Type 0 where
  pub iam : IamWorld
  -- session.Must(session.NewSessionWithOptions(...))
  pub open_session : Result Failure (Unit {0})
  pub environ : List Text
  pub expand_env : Text → Text
  pub identity_url : Result Text Text
  pub get_caller_identity : Credentials → Result Text Text
  pub get_credentials : Credentials → Result Text CredentialsValue
  -- fmt.Scanln
  pub scan_line : Result Text Text
  -- the exit code of a command in an environment
  pub run_command : List Text → List Text → ℕ

pub record Flags : Type 0 where
  pub session : SessionFlags
  pub save_profile : Text
  pub overwrite_profile : Bool
  pub print_identity_url : Bool
  pub command : List Text

-- common.FatalOnError
abbrev pub or_fatal : {A : Type 0} → Result Text A → Result Failure A
or_fatal r = map_err fatal r

-- strings.SplitN(v, "=", 2)[0]
unfoldable pub variable_name : Text → Text
variable_name [] = []
variable_name (c ∷ s) = let rest = variable_name s in if c == b'=' then [] else c ∷ rest

abbrev pub is_aws : Text → Bool
is_aws v = has_prefix (variable_name v) (codes "AWS")

-- The loop over the environment.
unfoldable pub without_aws : List Text → List Text
unfolding variable_name has_prefix
without_aws [] = []
without_aws (v ∷ env) = let rest = without_aws env in if is_aws v then rest else v ∷ rest

abbrev pub aws_variables : Text → CredentialsValue → List Text
aws_variables region creds =
    (codes "AWS_ACCESS_KEY_ID=" ++ creds.access_key_id)
    ∷ (codes "AWS_SECRET_ACCESS_KEY=" ++ creds.secret_access_key)
    ∷ (codes "AWS_SESSION_TOKEN=" ++ creds.session_token)
    ∷ (codes "AWS_REGION=" ++ region)
    ∷ []

-- conf.Credentials != nil
abbrev pub has_credentials : Credentials → Bool
has_credentials default = false
has_credentials (assume_role role_arn p) = true
has_credentials (session_token flags) = true

-- pEnv of executeCommand
unfoldable pub child_environment : List Text → Config → CredentialsValue → List Text
unfolding without_aws
child_environment env conf creds =
    if has_credentials conf.credentials
    then aws_variables conf.region creds ++ without_aws env
    else env

abbrev pub is_nil : List Text → Bool
is_nil [] = true
is_nil (c ∷ cs) = false

module _ (w : SessionWorld) where
  abbrev pub file_name : Text → Text → Text
  file_name variable other =
      if is_empty (w.expand_env variable) then w.expand_env other else w.expand_env variable

  -- creds, before they are used
  unfoldable pub credentials_value : Config → Result Failure CredentialsValue
  credentials_value conf =
      if has_credentials conf.credentials
      then or_fatal (w.get_credentials conf.credentials)
      else ok (no_credentials w.iam)

  -- The condition of the first check, from left to right.
  abbrev pub saves_own : Flags → Result Failure Bool
  saves_own flags = do
    role_arn ← deref flags.session.role_arn
    if not (is_empty role_arn) || is_empty flags.save_profile
        then ok false
        else (deref flags.session.mfa_serial_number >>= λ serial. ok (is_empty serial))

  abbrev pub refuse_if : Bool → Text → Result Failure (Unit {0})
  refuse_if true message = err (fatal message)
  refuse_if false message = ok tt

  abbrev pub does_nothing : Flags → Bool
  does_nothing flags =
      is_nil flags.command && (is_empty flags.save_profile && not flags.print_identity_url)

  -- The two checks of the flags in main.
  unfoldable pub check_flags : Flags → Result Failure (Unit {0})
  check_flags flags = do
    own ← saves_own flags
    refused ←
        refuse_if own
          (codes "--save-profile can only be used with --assume-role-arn or --mfa-serial-number")
    refuse_if (does_nothing flags)
        (codes "Use at least one of command, --print-identity-url or --save-profile")

  abbrev pub print_url : Bool → Result Failure (Unit {0})
  print_url false = ok tt
  print_url true = or_fatal w.identity_url >>= λ url. ok tt

  module _ (ini : IniFiles) where
    -- What saveProfile writes, the credentials and the configuration, or that the user declined.
    pub data Saved : Type 0 where
      saved : ini.File → ini.File → Saved
      declined : Saved

    -- Whether the section may be replaced: promptConfirm.
    unfoldable pub may_overwrite : Flags → Result Failure Bool
    may_overwrite flags =
        if flags.overwrite_profile
        then ok true
        else (or_fatal w.scan_line >>= λ response. ok (eq_text response (codes "y")))

    abbrev pub write_credentials : Text → CredentialsValue → ini.File → Result Failure ini.File
    write_credentials name creds f = do
      f1 ← or_fatal (ini.new_section f name)
      f2 ← or_fatal (ini.new_key f1 name (codes "aws_access_key_id") creds.access_key_id)
      f3 ← or_fatal (ini.new_key f2 name (codes "aws_secret_access_key") creds.secret_access_key)
      or_fatal (ini.new_key f3 name (codes "aws_session_token") creds.session_token)

    abbrev pub without_section : Text → ini.File → ini.File
    without_section name f = if ini.has_section f name then ini.delete_section f name else f

    abbrev pub write_config : Text → Text → Result Failure ini.File
    write_config name region = do
      f ← or_fatal (ini.load (file_name (codes "$AWS_CONFIG_FILE") (codes "$HOME/.aws/config")))
      let section = codes "profile " ++ name
      f1 ← or_fatal (ini.new_section (without_section section f) section)
      f2 ← or_fatal (ini.new_key f1 section (codes "region") region)
      or_fatal (ini.new_key f2 section (codes "format") (codes "json"))

    -- From the new section on.
    abbrev pub write_profile : Flags → Config → CredentialsValue → ini.File → Result Failure Saved
    write_profile flags conf creds f = do
      credentials ← write_credentials flags.save_profile creds f
      config ← write_config flags.save_profile conf.region
      ok (saved credentials config)

    abbrev pub write_if : Flags → Config → CredentialsValue → ini.File → Bool → Result Failure Saved
    write_if flags conf creds f false = ok declined
    write_if flags conf creds f true =
        write_profile flags conf creds (ini.delete_section f flags.save_profile)

    -- saveProfile
    unfoldable pub save_profile : Flags → Config → CredentialsValue → Result Failure Saved
    unfolding may_overwrite
    save_profile flags conf creds = do
      f ← or_fatal (
          ini.load
            (file_name (codes "$AWS_SHARED_CREDENTIALS_FILE") (codes "$HOME/.aws/credentials")))
      if ini.has_section f flags.save_profile
          then (may_overwrite flags >>= λ confirmed. write_if flags conf creds f confirmed)
          else write_profile flags conf creds f

    -- What the program has done when it ends: the files it wrote and the exit code.
    pub record Run : Type 0 where
      pub files : Option (ini.File × ini.File)
      pub exit_code : ℕ

    -- if len(*command) > 0 { os.Exit(executeCommand(...)) }
    unfoldable pub run_child :
        Flags → Config → CredentialsValue → Option (ini.File × ini.File) → Run
    unfolding child_environment
    run_child flags conf creds files = elim flags.command [
      | [] ↦ record { files = files; exit_code = 0 }
      | c ∷ cs ↦ record {
        files = files;
        exit_code = w.run_command (c ∷ cs) (child_environment w.environ conf creds);
      }
    ]

    abbrev pub after_save : Flags → Config → CredentialsValue → Saved → Run
    after_save flags conf creds declined = record { files = none; exit_code = 0 }
    after_save flags conf creds (saved f g) = run_child flags conf creds (some (f, g))

    -- From GetCallerIdentity on.
    unfoldable pub with_session : Flags → Config → Result Failure Run
    unfolding credentials_value save_profile run_child
    with_session flags conf = do
      identity ← or_fatal (w.get_caller_identity conf.credentials)
      creds ← credentials_value conf
      if is_empty flags.save_profile
          then ok (run_child flags conf creds none)
          else (save_profile flags conf creds >>= λ s. ok (after_save flags conf creds s))

    -- main
    unfoldable pub iam_session : Flags → Result Failure Run
    unfolding check_flags with_session assume_role_config
    iam_session flags = do
      checked ← check_flags flags
      opened ← w.open_session
      conf ← assume_role_config w.iam flags.session
      printed ← print_url flags.print_identity_url
      with_session flags conf
