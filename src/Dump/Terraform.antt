-- ===== src/Dump/Terraform.antt =====
-- aws/dump/terraform.go: which resources the terraform states hold. Reading files, S3 and the decoder of
-- state files are parameters; os and filepath calls of Download are not modelled.
use awstools.Prelude.{
  Bool, true, false, Option, none, some, List, [], ◌∷◌, Result, ok, err, ◌>>=◌, ◌||◌, if◌then◌else◌,
}
use awstools.Prelude.Text.{Text, codes, eq_text, is_empty}
use awstools.Common.Config.Values.{Value, Fields, null, text, end, get}
use awstools.Common.Config.Refresh.{assign}
use awstools.Dump.Jobs.{Resource, unique_id}

pub record Substitution : Type 0 where
  pub old : Text
  pub new : Text

pub record Options : Type 0 where
  pub path_substitutions : List Substitution
  pub overwrite : Bool

pub record S3Backend : Type 0 where
  pub bucket : Text
  pub keys : List Text
  pub region : Text
  pub role_arn : Text
  pub external_id : Text
  pub session_name : Text

pub record TerraformBackends : Type 0 where
  pub destination : Text
  pub options : Option Options
  pub s3 : List S3Backend
  -- from the name of a file to the object that it was downloaded from
  pub state_filenames : List (Text × Text)

-- One instance of a resource in a state: its type, and the JSON of its attributes if it is current.
pub record Instance : Type 0 where
  pub kind : Text
  pub current : Option Text

pub data TerraformError : Type 0 where
  no_destination no_s3 : TerraformError
  failed : Text → TerraformError
  -- the panic of a type assertion
  not_a_string : TerraformError

pub record TerraformWorld : Type 0 where
  pub download : S3Backend → Text → Options → Result Text (List (Text × Text))
  pub read_state : Text → Result Text (List Instance)
  pub unmarshal : Text → Result Text Fields

abbrev pub default_options : Options
default_options = record { path_substitutions = []; overwrite = false }

options_or_default : Option Options → Options
options_or_default none = default_options
options_or_default (some o) = o

has_no_backend : List S3Backend → Bool
has_no_backend [] = true
has_no_backend (b ∷ backends) = false

-- (*TerraformBackends).Verify
unfoldable pub verify : TerraformBackends → Result TerraformError TerraformBackends
unfolding options_or_default has_no_backend
verify t =
    if is_empty t.destination
    then err no_destination
    else if has_no_backend t.s3
    then err no_s3
    else ok (record t { options = some (options_or_default t.options) })

-- NewTerraformBackendsFromFile; `decode` is json.Unmarshal into a value that has defaults.
unfoldable pub new_terraform_backends_from_file :
    (Text → Result Text Text)
    → (Text → TerraformBackends → Result Text TerraformBackends)
    → Text
    → Result Text TerraformBackends
new_terraform_backends_from_file read_file decode filename = do
  data_bytes ← read_file filename
  decode data_bytes
      (record { destination = []; options = some default_options; s3 = []; state_filenames = [] })

assign_all : List (Text × Text) → List (Text × Text) → List (Text × Text)
assign_all [] m = m
assign_all ((k, v) ∷ entries) m = assign_all entries (assign k v m)

module _ (w : TerraformWorld) where
  -- The loop of Pull over the backends.
  download_all :
      List S3Backend
      → Text
      → Options
      → List (Text × Text)
      → Result TerraformError (List (Text × Text))
  unfolding assign_all
  download_all [] destination options filenames = ok filenames
  download_all (b ∷ backends) destination options filenames =
      elim (w.download b destination options) [
        | err e ↦ err (failed e)
        | ok more ↦ download_all backends destination options (assign_all more filenames)
      ]

  -- Pull: the backends that it leaves, or its error. An error of Verify makes it return nil.
  unfoldable pub pull : TerraformBackends → Result TerraformError TerraformBackends
  unfolding verify download_all
  pull t = elim (verify t) [
    | err e ↦ ok t
    | ok t' ↦ do
      filenames ← download_all t'.s3 t'.destination (options_or_default t'.options) []
      ok (record t' { state_filenames = filenames })
  ]

  -- decoded[key].(string)
  string_at : Option Value → Result TerraformError Text
  string_at (some (text s)) = ok s
  string_at _ = err not_a_string

  -- decoded["arn"] == nil
  is_nil : Option Value → Bool
  is_nil none = true
  is_nil (some null) = true
  is_nil (some _) = false

  -- The types that are kept although they have no ARN.
  unfoldable pub kept_without_arn : Text → Bool
  kept_without_arn kind =
      eq_text kind (codes "aws_iam_access_key")
      || (eq_text kind (codes "aws_route53_record") || eq_text kind (codes "aws_route53_zone"))

  bare_resource : Text → Text → Resource
  bare_resource id arn = record {
    id = id;
    arn = arn;
    service = [];
    kind = [];
    account_id = [];
    region = [];
    metadata = end;
    managed_by = [];
  }

  -- One round of the innermost loop, for the attributes of a current instance; `none` is `continue`.
  unfoldable pub read_instance : Text → Fields → Result TerraformError (Option Resource)
  unfolding string_at is_nil kept_without_arn bare_resource
  read_instance kind decoded = do
    id ← string_at (get (codes "id") decoded)
    if is_nil (get (codes "arn") decoded)
        then ok (if kept_without_arn kind then some (bare_resource id []) else none)
        else (do arn ← string_at (get (codes "arn") decoded); ok (some (bare_resource id arn)))

  -- What the loop does with one instance; a JSON error ends it.
  unfoldable pub decode_instance : Instance → Result TerraformError (Option Resource)
  unfolding read_instance
  decode_instance i = elim i.current [
    | none ↦ ok none
    | some attributes ↦ elim (w.unmarshal attributes) [
      | err e ↦ err (failed e)
      | ok decoded ↦ read_instance i.kind decoded
    ]
  ]

  add_found : Option Resource → List Resource → List Resource
  add_found none output = output
  add_found (some r) output = r ∷ output

  read_instances : List Instance → Result TerraformError (List Resource)
  unfolding decode_instance add_found
  read_instances [] = ok []
  read_instances (i ∷ instances) = do
    found ← decode_instance i
    output ← read_instances instances
    ok (add_found found output)

  -- LoadStateFromFile
  unfoldable pub load_state_from_file : Text → Result TerraformError (List Resource)
  unfolding read_instances
  load_state_from_file filename = elim (w.read_state filename) [
    | err e ↦ err (failed e)
    | ok instances ↦ read_instances instances
  ]

  unfoldable pub add_managed : Text → List Resource → List (Text × Text) → List (Text × Text)
  add_managed s3 [] managed = managed
  add_managed s3 (r ∷ resources) managed =
      add_managed s3 resources (assign (unique_id r) s3 managed)

  -- The loop of Load; a file that cannot be read is skipped, and a panic is not.
  unfoldable pub load_files :
      List (Text × Text) → List (Text × Text) → Result TerraformError (List (Text × Text))
  unfolding load_state_from_file add_managed
  load_files [] managed = ok managed
  load_files ((filename, s3) ∷ files) managed = elim (load_state_from_file filename) [
    | err not_a_string ↦ err not_a_string
    | err _ ↦ load_files files managed
    | ok resources ↦ load_files files (add_managed s3 resources managed)
  ]

  -- Load
  unfoldable pub load : TerraformBackends → Result TerraformError (List (Text × Text))
  unfolding load_files
  load t = load_files t.state_filenames []
