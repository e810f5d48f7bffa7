-- ===== src/Common/Config/Clients.antt =====
-- RefreshState: a client of a service exists only where a source needs it.
use awstools.Prelude.{
  ◌++◌, ◌≡◌, ◌≢◌, sym, ap, ◌∙◌, arith, Bool, false, ok, >>=-eq-ok, map_err-eq-ok, ok-injective,
}
use awstools.Prelude.Text.{Text, codes}
use awstools.Common.Config.Values.{
  Value, Fields, SourceType, kms, ssm, secrets_manager, file, object, secret, end, field,
}
use awstools.Common.Config.Generate.{ConfigValues}
use awstools.Common.Config.Refresh.{
  ConfigWorld, wrap, RefreshState, no_clients, fetch_source, with_client, refresh_fields,
  refresh_entry, refresh_map,
}
use awstools.Common.Config.Resolved.{AllSources, AllSourcesEntry}

-- A file is read without a client.
abbrev pub has_client : SourceType → RefreshState → Bool
has_client file st = false
has_client ssm st = st.ssm_client
has_client secrets_manager st = st.secrets_manager_client
has_client kms st = st.kms_client

with_client-other :
    (kind other : SourceType) (st : RefreshState)
    → other ≢ kind
    → has_client kind (with_client other st) ≡ has_client kind st
unfolding with_client
with_client-other kind other st h = ground arith

module _ (w : ConfigWorld) (stage : Text) (kind : SourceType) where
  mutual
    unfolding refresh_fields AllSources

    refresh_fields-client :
        (src dst res : Fields) (st st' : RefreshState)
        → refresh_fields w stage src dst st ≡ ok (res, st')
        → AllSources (λ s. s.kind ≢ kind) src
        → has_client kind st' ≡ has_client kind st
    refresh_fields-client end dst res st st' e h =
        ap (λ (r : Fields × RefreshState). has_client kind r.1) (sym (ok-injective e))
    refresh_fields-client (field key value src) dst res st st' e h =
        let (mid, first, e') = >>=-eq-ok (refresh_entry w stage value key dst st) _ e in
        refresh_fields-client src mid.0 res mid.1 st' e' h.1
        ∙ refresh_entry-client value key dst mid.0 st mid.1 first h.0

    refresh_entry-client :
        (value : Value) (key : Text) (dst res : Fields) (st st' : RefreshState)
        → refresh_entry w stage value key dst st ≡ ok (res, st')
        → AllSourcesEntry (λ s. s.kind ≢ kind) value
        → has_client kind st' ≡ has_client kind st
    refresh_entry-client (object m) key dst res st st' e h =
        let (mid, first, e') =
          >>=-eq-ok
            (wrap (codes "failed to refresh sub map with key " ++ key)
              (refresh_fields w stage m end st))
            _ e in
        ap (λ (r : Fields × RefreshState). has_client kind r.1) (sym (ok-injective e'))
        ∙ refresh_fields-client m end mid.0 st mid.1
            (map_err-eq-ok _ (refresh_fields w stage m end st) first) h
    refresh_entry-client (secret s) key dst res st st' e h =
        let (mid, first, e') = >>=-eq-ok (fetch_source w stage s.kind s key dst) _ e in
        ap (λ (r : Fields × RefreshState). has_client kind r.1) (sym (ok-injective e'))
        ∙ with_client-other kind s.kind st h
    refresh_entry-client value key dst res st st' e h =
        ap (λ (r : Fields × RefreshState). has_client kind r.1) (sym (ok-injective e))

-- Where no source of a type occurs, in the map or in its nested maps, no client of it is created.
refresh_map-client :
    (w : ConfigWorld) (c : ConfigValues) (kind : SourceType) (m : Fields) (st : RefreshState)
    → AllSources (λ s. s.kind ≢ kind) c.static
    → refresh_map w c ≡ ok (m, st)
    → has_client kind st ≡ false
unfolding refresh_map
refresh_map-client w c kind m st h e =
    refresh_fields-client w c.version_stage kind c.static end m no_clients st e h ∙ no_client kind
  where
    no_client : (k : SourceType) → has_client k no_clients ≡ false
    no_client k = ground arith
