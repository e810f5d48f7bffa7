-- ===== src/Tests/Config.antt =====
-- Runs of common/config_values.go at concrete inputs.
use mathlib.Core.List.Permᴰ
use mathlib.Core.List.{Permᴰ}
use awstools.Prelude.{
  ℕ, ◌≡◌, ◌≢◌, refl, arith, true, false, some, none, [], ◌∷◌, ◌++◌, Result, ok, err,
}
use awstools.Prelude.Text.{Text, codes, strip_prefix, has_prefix, strip_suffix, split}
use awstools.Common.Kms.{decrypt_with_kms, uses_secret_box}
use awstools.Common.Config.Values.{
  kms, ssm, secrets_manager, file, Fields, text, object, secret, end, field, null, put, put_all,
  get,
}
use awstools.Common.Config.Generate.{
  ConfigValues, new_config_values, generate_from_map, set_from_map, find_prefix,
}
use awstools.Common.Config.Prefixes.{
  SamePrefixes, generate_from_map-SamePrefixes, new_config_values-IsPrefixFree,
}
use awstools.Common.Config.Normal.{IsNormal}
use awstools.Common.Config.Refresh.{
  ConfigWorld, RefreshState, no_clients, refresh_map, refresh, get_parameters_by_path, assign, last,
}
use awstools.Common.Config.Resolved.{AllSources, IsSettled}
use awstools.Common.Config.Pipeline.{between, ArePlain, refresh_map-set_from_map_kms}
use awstools.Common.Config.Retries.{Outcome, refresh_with_retries, refresh_with_retries-Outcome}
use awstools.Tests.Kms.{clear_kms, clear_kms-IsFaithful, hello_sealed, encrypt_hello}

-- Files hold their names, and the services answer with one value.
abbrev pub small_world : ConfigWorld
small_world = record {
  read_file = λ name. ok name;
  get_parameters_by_path =
      λ path. ok (record { parameters = (codes "/a/b", codes "1") ∷ []; next_token = none });
  get_parameter = λ name. err (codes "not found");
  get_secret_value =
      λ name stage. ok (record { secret_string = some (codes "{}"); secret_binary = [] });
  unmarshal_strings = λ s. ok ((codes "user", codes "u") ∷ []);
  unmarshal_map = λ s. ok (field (codes "k") (text s) end);
  marshal = λ m. ok (codes "{}");
  kms = clear_kms;
}

-- A map with one reference of each type, one of them in a nested map.
abbrev references : Fields
references = field (codes "KMS_A") (text hello_sealed) (
    field (codes "SSM__ALL") (text (codes "/a/*")) (
      field (codes "nested") (object (field (codes "b") (text (codes "file://name")) end))
        (field (codes "plain") (text (codes "x")) end)))

abbrev generated : Fields
generated =
    field (codes "A")
      (secret
        (record { kind = kms; name = codes "A"; identifier = hello_sealed; collapse = false }))
      (field (codes "ALL")
        (secret
          (record { kind = ssm; name = codes "ALL"; identifier = codes "/a/*"; collapse = true }))
        (field (codes "nested")
          (object (
            field (codes "b")
              (secret (record {
                kind = file;
                name = codes "b";
                identifier = codes "name";
                collapse = false;
              }))
              end))
          (field (codes "plain") (text (codes "x")) end)))

generate_references : generate_from_map new_config_values references ≡ ok generated
unfolding generate_from_map find_prefix new_config_values strip_prefix put has_prefix
generate_references = refl

abbrev configured : ConfigValues
configured = record new_config_values { static = generated }

abbrev resolved : Fields
resolved = field (codes "A") (text (codes "hello")) (
    field (codes "b") (text (codes "1")) (
      field (codes "nested") (object (field (codes "b") (text (codes "name")) end))
        (field (codes "plain") (text (codes "x")) end)))

abbrev two_clients : RefreshState
two_clients = record { ssm_client = true; secrets_manager_client = false; kms_client = true }

refresh_references : refresh_map small_world configured ≡ ok (resolved, two_clients)
unfolding refresh_map decrypt_with_kms uses_secret_box strip_suffix get_parameters_by_path put
    put_all assign last split
refresh_references = refl

no_secrets_manager : AllSources (λ s. s.kind ≢ secrets_manager) generated
unfolding AllSources
no_secrets_manager = ground arith

abbrev plain : Fields
plain = field (codes "a") (text (codes "x")) (field (codes "b") null end)

plain-IsNormal : IsNormal new_config_values plain
unfolding IsNormal get find_prefix new_config_values strip_prefix
plain-IsNormal = ground arith

plain-IsSettled : IsSettled plain
unfolding IsSettled get
plain-IsSettled = ground arith

abbrev after : Fields
after = field (codes "c") (text (codes "y")) end

around-ArePlain : ArePlain (codes "A") plain after
unfolding IsNormal IsSettled get find_prefix new_config_values strip_prefix
around-ArePlain = record {
  normal = (plain-IsNormal, ground arith);
  settled = (plain-IsSettled, ground arith);
  fresh = (refl, refl);
  apart = ground arith;
}

refresh_map-set_from_map_kms_example :
    (d : ConfigValues) × (set_from_map new_config_values
        (between plain (codes "KMS_" ++ codes "A") (text hello_sealed) after)
      ≡ ok d)
    × (refresh_map small_world d
        ≡ ok (
          between plain (codes "A") (text (codes "hello")) after,
          record no_clients { kms_client = true },
        ))
refresh_map-set_from_map_kms_example =
    refresh_map-set_from_map_kms small_world (codes "A") (codes "hello") (codes "id") hello_sealed
      plain after clear_kms-IsFaithful encrypt_hello around-ArePlain

-- The first two rounds fail.
abbrev worlds : ℕ → ConfigWorld
worlds ℕ.zero = record small_world { marshal = λ m. err (codes "first") }
worlds (ℕ.suc ℕ.zero) = record small_world { marshal = λ m. err (codes "second") }
worlds _ = small_world

abbrev decode : Text → Result Text Text
decode s = ok s

refresh_with_retries-Outcome_example :
    Outcome
      (λ i. refresh (worlds i) decode configured)
      5
      0
      (refresh_with_retries worlds decode configured)
unfolding new_config_values
refresh_with_retries-Outcome_example = refresh_with_retries-Outcome worlds decode configured

-- The prefixes in another order.
abbrev reversed : ConfigValues
reversed = record new_config_values {
  key_prefixes =
      (file, codes "FILE_")
      ∷ (kms, codes "KMS_")
      ∷ (ssm, codes "SSM_")
      ∷ (secrets_manager, codes "SECRETS_MANAGER_")
      ∷ [];
}

reversed-SamePrefixes : SamePrefixes new_config_values reversed
unfolding new_config_values
reversed-SamePrefixes = record {
  keys_free = new_config_values-IsPrefixFree.0;
  values_free = new_config_values-IsPrefixFree.1;
  keys = Permᴰ.trans (Permᴰ.cons refl (Permᴰ.cons refl (Permᴰ.swap {l = []} refl refl))) (
      Permᴰ.trans
        (Permᴰ.cons refl
          (Permᴰ.swap {l = (secrets_manager, codes "SECRETS_MANAGER_") ∷ []} refl refl))
        (Permᴰ.swap {l = (ssm, codes "SSM_") ∷ (secrets_manager, codes "SECRETS_MANAGER_") ∷ []}
          refl refl));
  values = Permᴰ.refl _;
}

generate_from_map-SamePrefixes_example :
    generate_from_map new_config_values references ≡ generate_from_map reversed references
generate_from_map-SamePrefixes_example =
    generate_from_map-SamePrefixes reversed-SamePrefixes references
