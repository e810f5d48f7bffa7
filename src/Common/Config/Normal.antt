-- ===== src/Common/Config/Normal.antt =====
-- What GenerateFromMap leaves: no text that a prefix marks as a reference to a secret, at any depth.
use awstools.Prelude.{
  ◌≡◌, refl, sym, ap, ◌∙◌, arith, none, ok, ok-injective, Option-cases, inl, inr,
}
use awstools.Prelude.Text.{Text, eq_text_iff}
use awstools.Common.Config.Values.{
  Value, Fields, Source, text, object, secret, end, field, put, get,
}
use awstools.Common.Config.Maps.{
  IsApartFrom, IsApartFrom-append, IsApartFrom-end, append, append-append, append-end, eq_text_comm,
  get-put, put_of_fresh,
}
use awstools.Common.Config.Generate.{
  ConfigValues, find_prefix, generate_text, generate_fields, generate_entry, generate_from_map,
}

module _ (c : ConfigValues) where
  -- Neither the key nor the value refers to a secret.
  abbrev pub IsPlainText : Text → Text → Type 0
  IsPlainText key v =
      (find_prefix c.key_prefixes key ≡ none) × (find_prefix c.value_prefixes v ≡ none)

  -- The keys are distinct and the texts plain, also in the nested maps.
  unfoldable mutual
    pub IsNormal : Fields → Type 0
    IsNormal end = Unit
    IsNormal (field k v m) = (get k m ≡ none) × IsNormalEntry v k × IsNormal m

    pub IsNormalEntry : Value → Text → Type 0
    IsNormalEntry (text v) k = IsPlainText k v
    IsNormalEntry (object m) k = IsNormal m
    IsNormalEntry _ k = Unit

  put-IsNormal :
      (k : Text) (v : Value) (m : Fields) → IsNormalEntry v k → IsNormal m → IsNormal (put k v m)
  unfolding put IsNormal get
  put-IsNormal k v end e h = ground arith
  put-IsNormal k v (field j w m) e h =
      ground (arith, put-IsNormal k v m e, get-put k j v m, eq_text_comm j k, eq_text_iff j k)

  put_source-IsNormal :
      (s : Source) (dst : Fields) → IsNormal dst → IsNormal (put s.name (secret s) dst)
  put_source-IsNormal s dst h = put-IsNormal s.name (secret s) dst (unfold IsNormal in tt) h

  generate_text-IsNormal :
      (key v : Text) (dst : Fields) → IsNormal dst → IsNormal (generate_text c key v dst)
  unfolding generate_text
  generate_text-IsNormal key v dst h = elim (Option-cases (find_prefix c.key_prefixes key)) [
    | inl missed ↦ elim (Option-cases (find_prefix c.value_prefixes v)) [
      | inl missed' ↦
          rw (missed, missed', generate_text)
            (put-IsNormal key (text v) dst (unfold IsNormal in (missed, missed')) h)
      | inr (found, e) ↦ rw (missed, e, generate_text) (put_source-IsNormal _ dst h)
    ]
    | inr (found, e) ↦ rw (e, generate_text) (put_source-IsNormal _ dst h)
  ]

  mutual
    unfolding generate_fields IsNormal

    generate_fields-IsNormal :
        (src dst : Fields)
        → IsNormal dst
        → (res : Fields) × (generate_fields c src dst ≡ ok res) × IsNormal res
    generate_fields-IsNormal end dst h = (dst, refl, h)
    generate_fields-IsNormal (field key value src) dst h =
        let (mid, e, hm) = generate_entry-IsNormal value key dst h in
        let (res, e', hr) = generate_fields-IsNormal src mid hm in (res, rw e e', hr)

    generate_entry-IsNormal :
        (value : Value) (key : Text) (dst : Fields)
        → IsNormal dst
        → (res : Fields) × (generate_entry c value key dst ≡ ok res) × IsNormal res
    generate_entry-IsNormal (object m) key dst h =
        let (val, e, hv) = generate_fields-IsNormal m end tt in
        (put key (object val) dst, rw e, put-IsNormal key (object val) dst hv h)
    generate_entry-IsNormal (text v) key dst h =
        (generate_text c key v dst, refl, generate_text-IsNormal key v dst h)
    generate_entry-IsNormal value key dst h =
        (put key value dst, refl, put-IsNormal key value dst tt h)

  -- GenerateFromMap never fails, and in its result no text is left, at any depth, whose key or
  -- value has a prefix of a source; the keys of each map are distinct.
  generate_from_map-IsNormal :
      (src : Fields) → (res : Fields) × (generate_from_map c src ≡ ok res) × IsNormal res
  unfolding generate_from_map IsNormal
  generate_from_map-IsNormal src = generate_fields-IsNormal src end tt

  mutual
    unfolding generate_fields IsNormal generate_text

    pub generate_fields_of_IsNormal :
        (src dst : Fields)
        → IsNormal src
        → IsApartFrom dst src
        → generate_fields c src dst ≡ ok (append dst src)
    generate_fields_of_IsNormal end dst h a = ap ok (sym (append-end dst))
    generate_fields_of_IsNormal (field key value src) dst h a =
        rw
          (
            generate_entry_of_IsNormal value key dst h.1 a.0,
            generate_fields_of_IsNormal src (append dst (field key value end)) h.2
                (IsApartFrom-append dst src key value h.0 a.1),
          )
          (ap ok (append-append dst (field key value end) src))

    generate_entry_of_IsNormal :
        (value : Value) (key : Text) (dst : Fields)
        → IsNormalEntry value key
        → get key dst ≡ none
        → generate_entry c value key dst ≡ ok (append dst (field key value end))
    generate_entry_of_IsNormal (object m) key dst h a =
        rw (
          generate_fields_of_IsNormal m end h (IsApartFrom-end m),
          put_of_fresh key (object m) dst a,
        )
    generate_entry_of_IsNormal (text v) key dst h a =
        rw (h.0, h.1, generate_text) (ap ok (put_of_fresh key (text v) dst a))
    generate_entry_of_IsNormal value key dst h a = ap ok (put_of_fresh key value dst a)

  -- Such a map is left as it is.
  pub generate_from_map_of_IsNormal : (m : Fields) → IsNormal m → generate_from_map c m ≡ ok m
  unfolding generate_from_map
  generate_from_map_of_IsNormal m h = generate_fields_of_IsNormal m end h (IsApartFrom-end m)

  -- Applying GenerateFromMap to its own result changes nothing.
  generate_from_map_idempotent :
      (src res : Fields) → generate_from_map c src ≡ ok res → generate_from_map c res ≡ ok res
  generate_from_map_idempotent src res e =
      let (res', e', normal) = generate_from_map-IsNormal src in
      generate_from_map_of_IsNormal res (rw (ok-injective (sym e ∙ e')) normal)
