-- ===== src/Tests/Iam.antt =====
-- Configurations, credentials and a saved profile of common/iam.go and iam/session/main.go.
use awstools.Prelude.{◌≡◌, refl, ◌⊎◌, ◌↔◌, true, false, none, some, List, [], ◌∷◌, ◌++◌, ok, err}
use awstools.Prelude.Text.{Text, codes}
use awstools.Common.Iam.{
  SessionFlags, AssumeRoleProvider, no_token, from_stdin, assume_role, Config, CredentialsValue,
  IamWorld, assume_role_config, no_credentials, retrieve,
}
use awstools.Common.Iam.Promises.{UsesMfa, assume_role_config-UsesMfa}
use awstools.Common.Iam.Retrieval.{FromSts, IsUnread, retrieve_iff}
use awstools.IamSession.{
  IniFiles, SessionWorld, Flags, Run, has_credentials, with_session, aws_variables,
  child_environment, iam_session,
}
use awstools.IamSession.Environment.{select, child_environment-select}
use awstools.IamSession.Saving.{iam_session-saved}

abbrev provider : AssumeRoleProvider
provider = record {
  external_id = none;
  role_session_name = [];
  duration = 900;
  policy = none;
  serial_number = none;
  token = no_token;
}

-- Standard input is closed.
abbrev world : IamWorld
world = record {
  getenv = λ key. [];
  trim_space = λ s. s;
  read_file = λ name. err (codes "missing");
  stdin_token = err (codes "EOF");
  get_session_token = λ region serial code. err (codes "denied");
  new_provider = provider;
}

abbrev session_flags : SessionFlags
session_flags = record {
  role_arn = some (codes "r");
  role_external_id = some [];
  role_session_name = some (codes "me");
  role_policy = some [];
  region = some [];
  mfa_serial_number = some (codes "m");
  mfa_token_code = some [];
  duration = none;
}

abbrev config : Config
config = record {
  region = codes "eu-west-1";
  credentials = assume_role (codes "r") (record provider {
    role_session_name = codes "me";
    serial_number = some (codes "m");
    token = from_stdin;
  });
}

config-made : assume_role_config world session_flags ≡ ok config
unfolding assume_role_config
config-made = refl

assume_role_config-UsesMfa_example : UsesMfa world (codes "m") config.credentials
assume_role_config-UsesMfa_example =
    assume_role_config-UsesMfa world session_flags (codes "m") config refl refl config-made

retrieve-closed : retrieve world session_flags ≡ ok (no_credentials world, none)
unfolding retrieve
retrieve-closed = refl

retrieve_iff_example : (retrieve world session_flags ≡ ok (no_credentials world, none)) ↔ (
    FromSts world session_flags (no_credentials world)
    ⊎ (IsUnread world session_flags × (no_credentials world ≡ no_credentials world)))
retrieve_iff_example = retrieve_iff world session_flags (no_credentials world)

abbrev creds : CredentialsValue
creds = record {
  access_key_id = codes "A";
  secret_access_key = codes "B";
  session_token = codes "C";
}

child_environment-select_example :
    (select true (child_environment (codes "AWS_PROFILE=x" ∷ codes "HOME=/" ∷ []) config creds)
      ≡ aws_variables config.region creds)
    × (select false (child_environment (codes "AWS_PROFILE=x" ∷ codes "HOME=/" ∷ []) config creds)
        ≡ select false (codes "AWS_PROFILE=x" ∷ codes "HOME=/" ∷ []))
child_environment-select_example =
    child_environment-select (codes "AWS_PROFILE=x" ∷ codes "HOME=/" ∷ []) config creds refl

-- A file is the list of what was done to it.
abbrev files : IniFiles
files = record {
  File = List Text;
  load = λ name. ok [];
  has_section = λ f name. false;
  delete_section = λ f name. f;
  new_section = λ f name. ok (name ∷ f);
  new_key = λ f section key value. ok ((key ++ value) ∷ f);
}

abbrev session_world : SessionWorld
session_world = record {
  iam = world;
  open_session = ok tt;
  environ = [];
  expand_env = λ s. s;
  identity_url = ok (codes "u");
  get_caller_identity = λ c. ok (codes "1");
  get_credentials = λ c. ok creds;
  scan_line = ok (codes "n");
  run_command = λ command env. 0;
}

abbrev flags : Flags
flags = record {
  session = session_flags;
  save_profile = codes "p";
  overwrite_profile = false;
  print_identity_url = false;
  command = [];
}

abbrev run : Run session_world files
run = record {
  files = some (
    codes "aws_session_tokenC"
        ∷ codes "aws_secret_access_keyB"
        ∷ codes "aws_access_key_idA"
        ∷ codes "p"
        ∷ [],
    codes "formatjson" ∷ codes "regioneu-west-1" ∷ codes "profile p" ∷ [],
  );
  exit_code = 0;
}

iam_session-run : iam_session session_world files flags ≡ ok run
unfolding iam_session
iam_session-run = refl

iam_session-saved_example :
    (conf : Config) × (assume_role_config world session_flags ≡ ok conf)
    × (has_credentials conf.credentials ≡ true)
    × (with_session session_world files flags conf ≡ ok run)
iam_session-saved_example = iam_session-saved session_world files flags run refl iam_session-run
