-- ===== src/Common/Config/Resolved.antt =====
-- What RefreshMap returns: every source is replaced by its values, and plain maps stay as they are.
use awstools.Prelude.{
  ◌++◌, ◌≡◌, ap, arith, none, List, [], ◌∷◌, ok, >>=-eq-ok, map_err-eq-ok, ok-injective, Bool-cases,
  Option-cases, inl, inr,
}
use awstools.Prelude.Text.{Text, codes, strip_suffix}
use awstools.Common.Kms.{decrypt_with_kms}
use awstools.Common.Config.Values.{
  Value, Fields, SourceType, Source, kms, ssm, secrets_manager, file, text, object, secret, end,
  field, put, put_all, string_fields, get,
}
use awstools.Common.Config.Maps.{
  IsApartFrom, IsApartFrom-append, IsApartFrom-end, append, append-append, append-end, put_of_fresh,
}
use awstools.Common.Config.Generate.{ConfigValues}
use awstools.Common.Config.Refresh.{
  for_key, ConfigWorld, wrap, RefreshState, no_clients, merge, fetch_source, refresh_ssm,
  get_parameters_by_path, get_secret_value, refresh_source, refresh_fields, refresh_entry,
  refresh_map,
}

module _ (P : Source → Type 0) where
  -- P holds of every source in the map and in its nested maps.
  unfoldable mutual
    pub AllSources : Fields → Type 0
    AllSources end = Unit
    AllSources (field k v m) = AllSourcesEntry v × AllSources m

    pub AllSourcesEntry : Value → Type 0
    AllSourcesEntry (secret s) = P s
    AllSourcesEntry (object m) = AllSources m
    AllSourcesEntry _ = Unit

  put-AllSources :
      (k : Text) (v : Value) (m : Fields)
      → AllSourcesEntry v
      → AllSources m
      → AllSources (put k v m)
  unfolding put AllSources
  put-AllSources k v end e h = (e, h)
  put-AllSources k v (field j w m) e h = ground (arith, put-AllSources k v m e)

  put_text-AllSources : (k v : Text) (m : Fields) → AllSources m → AllSources (put k (text v) m)
  put_text-AllSources k v m h = put-AllSources k (text v) m (unfold AllSources in tt) h

  put_all-AllSources :
      (values : List (Text × Text)) (m : Fields) → AllSources m → AllSources (put_all values m)
  unfolding put_all
  put_all-AllSources [] m h = h
  put_all-AllSources ((k, v) ∷ values) m h =
      put_all-AllSources values (put k (text v) m) (put_text-AllSources k v m h)

  string_fields-AllSources : (values : List (Text × Text)) → AllSources (string_fields values)
  unfolding string_fields AllSources
  string_fields-AllSources [] = tt
  string_fields-AllSources ((k, v) ∷ values) = (tt, string_fields-AllSources values)

  merge-AllSources :
      (s : Source) (key : Text) (values : List (Text × Text)) (m : Fields)
      → AllSources m
      → AllSources (merge s key values m)
  unfolding merge
  merge-AllSources s key values m h = elim (Bool-cases s.collapse) [
    | inl e ↦ rw e (put_all-AllSources values m h)
    | inr e ↦ rw e (
        put-AllSources key (object (string_fields values)) m
          (unfold AllSources in string_fields-AllSources values) h)
  ]

  module _ (w : ConfigWorld) (stage : Text) where
    -- A fetched source adds texts and maps of texts.
    fetch_source-AllSources :
        (kind : SourceType) (s : Source) (key : Text) (dst res : Fields)
        → fetch_source w stage kind s key dst ≡ ok res
        → AllSources dst
        → AllSources res
    unfolding fetch_source
    fetch_source-AllSources file s key dst res e h =
        let (bytes, _, e') =
          >>=-eq-ok
            (wrap (for_key (codes "failed to load file " ++ s.identifier) key)
              (w.read_file s.identifier))
            _ e in
        rw (← ok-injective e') (put_text-AllSources s.name bytes dst h)
    fetch_source-AllSources ssm s key dst res e h =
        elim (Option-cases (strip_suffix (codes "/*") s.identifier)) [
          | inl one ↦
              let (value, _, e') =
                >>=-eq-ok
                  (wrap (for_key (codes "failed to fetch from SSM") key)
                    (w.get_parameter s.identifier))
                  _ (rw (one, refresh_ssm) at e) in
              rw (← ok-injective e') (put_text-AllSources s.name value dst h)
          | inr (path, many) ↦
              let (values, _, e') =
                >>=-eq-ok
                  (wrap (for_key (codes "failed to fetch from SSM by path") key)
                    (get_parameters_by_path w path))
                  _ (rw (many, refresh_ssm) at e) in
              rw (← ok-injective e') (merge-AllSources s key values dst h)
        ]
    fetch_source-AllSources secrets_manager s key dst res e h =
        let (values, _, e') =
          >>=-eq-ok
            (wrap (for_key (codes "failed to fetch from Secrets Manager") key)
              (get_secret_value w s.identifier stage))
            _ e in
        rw (← ok-injective e') (merge-AllSources s key values dst h)
    fetch_source-AllSources kms s key dst res e h =
        let (value, _, e') =
          >>=-eq-ok
            (wrap (for_key (codes "failed to decrypt KMS data") key)
              (decrypt_with_kms w.kms s.identifier))
            _ e in
        rw (← ok-injective e') (put_text-AllSources s.name value dst h)

    mutual
      unfolding refresh_fields refresh_source AllSources

      refresh_fields-AllSources :
          (src dst res : Fields) (st st' : RefreshState)
          → refresh_fields w stage src dst st ≡ ok (res, st')
          → AllSources dst
          → AllSources res
      refresh_fields-AllSources end dst res st st' e h =
          rw (← ap (λ (r : Fields × RefreshState). r.0) (ok-injective e)) h
      refresh_fields-AllSources (field key value src) dst res st st' e h =
          let (mid, first, e') = >>=-eq-ok (refresh_entry w stage value key dst st) _ e in
          refresh_fields-AllSources src mid.0 res mid.1 st' e'
            (refresh_entry-AllSources value key dst mid.0 st mid.1 first h)

      refresh_entry-AllSources :
          (value : Value) (key : Text) (dst res : Fields) (st st' : RefreshState)
          → refresh_entry w stage value key dst st ≡ ok (res, st')
          → AllSources dst
          → AllSources res
      refresh_entry-AllSources (object m) key dst res st st' e h =
          let (mid, first, e') =
            >>=-eq-ok
              (wrap (codes "failed to refresh sub map with key " ++ key)
                (refresh_fields w stage m end st))
              _ e in
          rw (← ap (λ (r : Fields × RefreshState). r.0) (ok-injective e')) (
            put-AllSources key (object mid.0) dst
              (refresh_fields-AllSources m end mid.0 st mid.1
                (map_err-eq-ok _ (refresh_fields w stage m end st) first) tt)
              h)
      refresh_entry-AllSources (secret s) key dst res st st' e h =
          let (mid, first, e') = >>=-eq-ok (fetch_source w stage s.kind s key dst) _ e in
          rw (← ap (λ (r : Fields × RefreshState). r.0) (ok-injective e'))
            (fetch_source-AllSources s.kind s key dst mid first h)
      refresh_entry-AllSources value key dst res st st' e h =
          rw (← ap (λ (r : Fields × RefreshState). r.0) (ok-injective e))
            (put-AllSources key value dst tt h)

-- RefreshMap leaves no source behind, in the map and in its nested maps.
refresh_map-AllSources :
    (w : ConfigWorld) (c : ConfigValues) (m : Fields) (st : RefreshState)
    → refresh_map w c ≡ ok (m, st)
    → AllSources (λ s. ⊥) m
unfolding refresh_map AllSources
refresh_map-AllSources w c m st e =
    refresh_fields-AllSources (λ s. ⊥) w c.version_stage c.static end m _ st e tt

-- The map has no source and its keys are distinct, also in the nested maps.
unfoldable mutual
  pub IsSettled : Fields → Type 0
  IsSettled end = Unit
  IsSettled (field k v m) = (get k m ≡ none) × IsSettledEntry v × IsSettled m

  pub IsSettledEntry : Value → Type 0
  IsSettledEntry (secret s) = ⊥
  IsSettledEntry (object m) = IsSettled m
  IsSettledEntry _ = Unit

module _ (w : ConfigWorld) (stage : Text) (st : RefreshState) where
  mutual
    unfolding refresh_fields IsSettled

    pub refresh_fields_of_IsSettled :
        (src dst : Fields)
        → IsSettled src
        → IsApartFrom dst src
        → refresh_fields w stage src dst st ≡ ok (append dst src, st)
    refresh_fields_of_IsSettled end dst h a = rw (append-end dst)
    refresh_fields_of_IsSettled (field key value src) dst h a = rw (
      refresh_entry_of_IsSettled value key dst h.1 a.0,
      refresh_fields_of_IsSettled src (append dst (field key value end)) h.2
          (IsApartFrom-append dst src key value h.0 a.1),
      append-append dst (field key value end) src,
    )

    refresh_entry_of_IsSettled :
        (value : Value) (key : Text) (dst : Fields)
        → IsSettledEntry value
        → get key dst ≡ none
        → refresh_entry w stage value key dst st ≡ ok (append dst (field key value end), st)
    refresh_entry_of_IsSettled (object m) key dst h a =
        rw (
          refresh_fields_of_IsSettled m end h (IsApartFrom-end m),
          put_of_fresh key (object m) dst a,
        )
    refresh_entry_of_IsSettled (secret s) key dst h a = absurd h
    refresh_entry_of_IsSettled value key dst h a = rw (put_of_fresh key value dst a)

-- A map without sources is returned as it is, and no client is created for it.
pub refresh_map_of_IsSettled :
    (w : ConfigWorld) (c : ConfigValues)
    → IsSettled c.static
    → refresh_map w c ≡ ok (c.static, no_clients)
unfolding refresh_map
refresh_map_of_IsSettled w c h =
    refresh_fields_of_IsSettled w c.version_stage no_clients c.static end h
      (IsApartFrom-end c.static)
