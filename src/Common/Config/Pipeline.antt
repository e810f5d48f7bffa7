-- ===== src/Common/Config/Pipeline.antt =====
-- SetFromMap and then RefreshMap: a secret that was encrypted for a key arrives under its name, and
-- a map without references passes unchanged.
use awstools.Prelude.{
  ◌≡◌, refl, ap, ◌∙◌, arith, true, none, ok, ok-injective, >>=-eq-ok, ◌++◌, some,
}
use awstools.Prelude.Text.{Text, codes, strip_prefix-append}
use awstools.Common.Kms.{encrypt_with_kms_and_secret_box}
use awstools.Common.Kms.RoundTrip.{IsFaithful, decrypt-encrypt}
use awstools.Common.Config.Values.{Value, Fields, text, secret, end, field, put, get, kms}
use awstools.Common.Config.Maps.{
  IsApartFrom, IsApartFrom-append, IsApartFrom-end, append, append-append, put_of_fresh,
}
use awstools.Common.Config.Generate.{
  ConfigValues, new_config_values, find_prefix, make_source, generate_text, generate_fields,
  generate_entry, generate_from_map, set_from_map,
}
use awstools.Common.Config.Refresh.{
  ConfigWorld, RefreshState, no_clients, refresh_fields, refresh_entry, refresh_map,
}
use awstools.Common.Config.Normal.{
  IsNormal, generate_fields_of_IsNormal, generate_from_map_of_IsNormal,
}
use awstools.Common.Config.Resolved.{
  IsSettled, refresh_fields_of_IsSettled, refresh_map_of_IsSettled,
}

-- A map whose texts are plain and that holds no source is the result of the refresh, and no client
-- is created.
refresh_map-set_from_map_plain :
    (w : ConfigWorld) (c : ConfigValues) (m : Fields)
    → IsNormal c m
    → IsSettled m
    → (d : ConfigValues) × (set_from_map c m ≡ ok d) × (refresh_map w d ≡ ok (m, no_clients))
unfolding set_from_map
refresh_map-set_from_map_plain w c m normal settled =
    let d : ConfigValues = record c { static = m } in
    (d, rw (generate_from_map_of_IsNormal c m normal), refresh_map_of_IsSettled w d settled)

find_prefix_kms :
    (name : Text)
    → find_prefix new_config_values.key_prefixes (codes "KMS_" ++ name) ≡ some (kms, name)
unfolding new_config_values find_prefix
find_prefix_kms name = ground (arith, strip_prefix-append (codes "KMS_") name)

name-make_source_kms : (name v : Text) → (make_source kms name v).name ≡ name
unfolding make_source
name-make_source_kms name v = ground arith

generate_text_kms :
    (name v : Text) (dst : Fields)
    → generate_text new_config_values (codes "KMS_" ++ name) v dst
      ≡ put name (secret (make_source kms name v)) dst
unfolding generate_text
generate_text_kms name v dst =
    rw (find_prefix_kms name, generate_text, name-make_source_kms name v) refl

generate_fields-append :
    (c : ConfigValues) (m n dst mid : Fields)
    → generate_fields c m dst ≡ ok mid
    → generate_fields c (append m n) dst ≡ generate_fields c n mid
unfolding generate_fields
generate_fields-append c end n dst mid h = ap (generate_fields c n) (ok-injective h)
generate_fields-append c (field k v m) n dst mid h =
    let (first, e, h') = >>=-eq-ok (generate_entry c v k dst) _ h in
    rw e (generate_fields-append c m n first mid h')

refresh_fields-append :
    (w : ConfigWorld) (stage : Text) (m n dst mid : Fields) (st st' : RefreshState)
    → refresh_fields w stage m dst st ≡ ok (mid, st')
    → refresh_fields w stage (append m n) dst st ≡ refresh_fields w stage n mid st'
unfolding refresh_fields
refresh_fields-append w stage end n dst mid st st' h =
    ap (λ (r : Fields × RefreshState). refresh_fields w stage n r.0 r.1) (ok-injective h)
refresh_fields-append w stage (field k v m) n dst mid st st' h =
    let (first, e, h') = >>=-eq-ok (refresh_entry w stage v k dst st) _ h in
    rw e (refresh_fields-append w stage m n first.0 mid first.1 st' h')

-- The map m, the entry and then the map n.
abbrev pub between : Fields → Text → Value → Fields → Fields
between m k v n = append m (field k v n)

-- Plain maps, whose entries stay as they are, and whose keys are not `name` and not shared.
pub record ArePlain (name : Text) (m n : Fields) : Type 0 where
  pub normal : IsNormal new_config_values m × IsNormal new_config_values n
  pub settled : IsSettled m × IsSettled n
  pub fresh : (get name m ≡ none) × (get name n ≡ none)
  pub apart : IsApartFrom m n

-- The entry is put after m, and n goes on after both.
put-append :
    (name : Text) (v : Value) (m n : Fields)
    → ArePlain name m n
    → (put name v m ≡ append m (field name v end))
      × IsApartFrom (put name v m) n
      × (append (put name v m) n ≡ between m name v n)
put-append name v m n plain =
    let e = put_of_fresh name v m plain.fresh.0 in
    (
      e,
      rw e (IsApartFrom-append m n name v plain.fresh.1 plain.apart),
      rw e (append-append m (field name v end) n),
    )

generate_between :
    (name ciphertext : Text) (m n : Fields)
    → ArePlain name m n
    → generate_from_map new_config_values (between m (codes "KMS_" ++ name) (text ciphertext) n)
      ≡ ok (between m name (secret (make_source kms name ciphertext)) n)
unfolding generate_from_map
generate_between name ciphertext m n plain =
    let (_, apart, e) = put-append name (secret (make_source kms name ciphertext)) m n plain in
    generate_fields-append new_config_values m _ end m
      (generate_from_map_of_IsNormal new_config_values m plain.normal.0)
    ∙ (ap (generate_fields new_config_values n) (generate_text_kms name ciphertext m)
        ∙ (generate_fields_of_IsNormal new_config_values n _ plain.normal.1 apart ∙ ap ok e))

refresh_entry_kms :
    (w : ConfigWorld) (stage name plaintext key_id ciphertext key : Text) (dst : Fields)
    → IsFaithful w.kms
    → encrypt_with_kms_and_secret_box w.kms plaintext key_id ≡ ok ciphertext
    → refresh_entry w stage (secret (make_source kms name ciphertext)) key dst no_clients
      ≡ ok (put name (text plaintext) dst, record no_clients { kms_client = true })
unfolding refresh_fields make_source put
refresh_entry_kms w stage name plaintext key_id ciphertext key dst faithful e = rw (
  decrypt-encrypt w.kms plaintext key_id ciphertext faithful e,
  name-make_source_kms name ciphertext,
)

refresh_fields_kms :
    (w : ConfigWorld) (stage name plaintext key_id ciphertext : Text) (m n : Fields)
    → IsFaithful w.kms
    → encrypt_with_kms_and_secret_box w.kms plaintext key_id ≡ ok ciphertext
    → ArePlain name m n
    → refresh_fields w stage (field name (secret (make_source kms name ciphertext)) n) m no_clients
      ≡ ok (between m name (text plaintext) n, record no_clients { kms_client = true })
unfolding refresh_fields
refresh_fields_kms w stage name plaintext key_id ciphertext m n faithful e plain =
    let (_, apart, same) = put-append name (text plaintext) m n plain in
    rw (refresh_entry_kms w stage name plaintext key_id ciphertext name m faithful e, ← same)
      (refresh_fields_of_IsSettled w stage _ n _ plain.settled.1 apart)

-- In a map m, KMS_name, n, where KMS_name has the ciphertext of a text, and m and n are plain maps
-- that share no key with each other and do not have `name`, GenerateFromMap with the prefixes of
-- NewConfigValues and RefreshMap replace the entry by `name` with that text, at its place, and leave
-- m and n as they are, if KMS and the packages for the envelope are faithful; only the KMS client is
-- created.
pub refresh_map-set_from_map_kms :
    (w : ConfigWorld) (name plaintext key_id ciphertext : Text) (m n : Fields)
    → IsFaithful w.kms
    → encrypt_with_kms_and_secret_box w.kms plaintext key_id ≡ ok ciphertext
    → ArePlain name m n
    → (d : ConfigValues) × (set_from_map new_config_values
          (between m (codes "KMS_" ++ name) (text ciphertext) n)
        ≡ ok d)
      × (refresh_map w d
          ≡ ok (between m name (text plaintext) n, record no_clients { kms_client = true }))
unfolding set_from_map refresh_map
refresh_map-set_from_map_kms w name plaintext key_id ciphertext m n faithful e plain =
    let source = secret (make_source kms name ciphertext) in
    let d : ConfigValues = record new_config_values { static = between m name source n } in
    (
      d,
      rw (generate_between name ciphertext m n plain) refl,
      refresh_fields-append w d.version_stage m (field name source n) end m no_clients no_clients (
            refresh_fields_of_IsSettled w d.version_stage no_clients m end plain.settled.0
              (IsApartFrom-end m))
          ∙ refresh_fields_kms w d.version_stage name plaintext key_id ciphertext m n faithful e
              plain,
    )
