-- ===== src/Dump/Iam/Entities/Complete.antt =====
-- The reports of users, groups, roles and policies end, and when their indexes are in range.
use awstools.Prelude.{
  ℕ, suc, ◌+◌, ◌≤◌, ◌≡◌, refl, ap, arith, Bool, false, Option, none, some, List, [], ◌∷◌, map,
  length, length-append, ok, >>=-eq-ok, inl, inr, Option-cases, Result-cases,
}
use awstools.Prelude.Text.{Text, codes}
use awstools.Dump.Jobs.{Resource, Session, ReportResult, new_resource}
use awstools.Dump.Reports.Pages.{proceed, walk, proceed_inv, walk_inv, each}
use awstools.Dump.Reports.Documents.{decode_inline_policy_document}
use awstools.Dump.Iam.{
  Owner, user, group, role, list_attached_policies, list_policies_of, list_policy_versions,
  list_access_keys,
}
use awstools.Dump.Iam.LastUsed.{
  LastUsedClient, LastAccessed, index_out_of_range, attach, generate_details_of, in_progress,
  record_last_used, update_at,
}
use awstools.Dump.Iam.LastUsed.Finished.{without_metadata, Reports, Over, attach-Reports}
use awstools.Dump.Iam.Entities.{
  Entity, RoleEntity, EntityClient, Listing, empty_listing, take_report, append_resources,
  append_access_keys, add_entity, add_policies, add_user, add_group, add_role, role_resource,
  add_policy, finish, attach_listing, walk_entities, list_groups, list_roles, list_policies,
  groups_listing, roles_listing,
}

-- Each ARN for which a job is started has a resource.
abbrev pub HasResources : Listing → Type 0
HasResources s = length s.arns ≤ length s.resources

append_resources-HasResources :
    (rs : List Resource) (s : Listing) → HasResources s → HasResources (append_resources rs s)
append_resources-HasResources rs s h = omega (arith, length-append s.resources rs)

add_entity-HasResources :
    (arn : Text) (r : Resource) (s : Listing) → HasResources s → HasResources (add_entity arn r s)
add_entity-HasResources arn r s h =
    omega (arith, length-append s.resources (r ∷ []), length-append s.arns (arn ∷ []))

take_report-HasResources :
    (add : List Resource → Listing → Listing) (report : ReportResult) (s : Listing)
    → ((rs : List Resource) → HasResources (add rs s))
    → HasResources s
    → HasResources (take_report add report s).0
take_report-HasResources add report s h k = elim (Option-cases report.error) [
  | inl fine ↦ rw fine (h report.resources)
  | inr (e, failed) ↦ rw failed k
]

generate_details_of-length :
    (client : LastUsedClient) (session : Session) (arns job_ids : List Text)
    → generate_details_of client session arns ≡ ok job_ids
    → length job_ids ≡ length arns
unfolding generate_details_of
generate_details_of-length client session [] job_ids h = ground arith
generate_details_of-length client session (arn ∷ arns) job_ids h =
    let (id, e, h') = >>=-eq-ok (client.generate_details session arn) _ h in
    let (ids, e', h'') = >>=-eq-ok (generate_details_of client session arns) _ h' in
    ground (arith, generate_details_of-length client session arns ids e')

module _ (client : EntityClient) (session : Session) where
  plain_report-HasResources :
      (report : ReportResult) (s : Listing)
      → HasResources s
      → HasResources (take_report append_resources report s).0
  plain_report-HasResources report s h =
      take_report-HasResources append_resources report s
        (λ rs. append_resources-HasResources rs s h) h

  add_policies-HasResources :
      (owner : Owner) (arn name : Text) (s : Listing)
      → HasResources s
      → HasResources (add_policies client session owner arn name s).0
  unfolding add_policies
  add_policies-HasResources owner arn name s h =
      proceed_inv HasResources false
        (take_report append_resources (list_policies_of client.policies owner session arn name) s)
        (take_report append_resources
          (list_attached_policies client.policies owner session arn name))
        (plain_report-HasResources _ s h) (λ t k. plain_report-HasResources _ t k)

  add_group-HasResources :
      (g : Entity) (s : Listing) → HasResources s → HasResources (add_group client session g s).0
  unfolding add_group
  add_group-HasResources g s h = elim (Result-cases (new_resource g.arn g.metadata)) [
    | inr (e, failed) ↦ rw (failed, add_group) h
    | inl (r, made) ↦
        rw (made, add_group)
          (add_policies-HasResources group g.arn g.name (add_entity g.arn r s)
            (add_entity-HasResources g.arn r s h))
  ]

  add_user-HasResources :
      (u : Entity) (s : Listing) → HasResources s → HasResources (add_user client session u s).0
  unfolding add_user
  add_user-HasResources u s h = elim (Result-cases (new_resource u.arn u.metadata)) [
    | inr (e, failed) ↦ rw (failed, add_user) h
    | inl (r, made) ↦
        rw (made, add_user)
          (proceed_inv HasResources false
            (add_policies client session user u.arn u.name (add_entity u.arn r s))
            (take_report append_access_keys (list_access_keys client.policies session u.name))
            (add_policies-HasResources user u.arn u.name (add_entity u.arn r s)
              (add_entity-HasResources u.arn r s h))
            (λ t k. take_report-HasResources append_access_keys _ t (λ rs. k) k))
  ]

  add_role-HasResources :
      (r : RoleEntity) (s : Listing) → HasResources s → HasResources (add_role client session r s).0
  unfolding add_role
  add_role-HasResources r s h = elim (Result-cases (new_resource r.arn r.metadata)) [
    | inr (e, failed) ↦ rw (failed, add_role) h
    | inl (resource, made) ↦
        elim (Result-cases
          (decode_inline_policy_document client.policies.documents r.assume_role_policy_document)) [
            | inr (e, failed) ↦ rw (made, add_role, failed) h
            | inl (document, decoded) ↦
                let t = add_entity r.arn (role_resource client session r resource document) s in
                rw (made, add_role, decoded)
                  (proceed_inv HasResources false
                    (take_report append_resources
                      (list_policies_of client.policies role session r.arn r.name) t)
                    (add_policies client session role r.arn r.name)
                    (plain_report-HasResources _ t (
                      add_entity-HasResources r.arn
                        (role_resource client session r resource document) s h))
                    (λ u k. add_policies-HasResources role r.arn r.name u k))
          ]
  ]

  attach_listing-Reports :
      (last fuel : ℕ) (s : Listing)
      → Over client.last_used session last
      → last + length s.arns ≤ fuel
      → HasResources s
      → Reports (map without_metadata s.resources) (attach_listing client session fuel s)
  unfolding attach_listing
  attach_listing-Reports last fuel s over enough h =
      elim (Result-cases (generate_details_of client.last_used session s.arns)) [
        | inr (e, failed) ↦ rw (failed, attach_listing) refl
        | inl (ids, e) ↦
            rw (e, attach_listing)
              (attach-Reports client.last_used fuel session last 0 0 ids
                (record { resources = s.resources; error = none }) over
                (omega (arith, generate_details_of-length client.last_used session s.arns ids e))
                (omega (arith, generate_details_of-length client.last_used session s.arns ids e)))
      ]

  finish-Reports :
      (last fuel : ℕ) (s : Listing × Option Text)
      → Over client.last_used session last
      → last + length s.0.arns ≤ fuel
      → HasResources s.0
      → Reports (map without_metadata s.0.resources) (finish client session fuel s)
  unfolding finish
  finish-Reports last fuel (s, some e) over enough h = refl
  finish-Reports last fuel (s, none) over enough h =
      attach_listing-Reports last fuel s over enough h

  -- If no job is in progress from the call `last` on, `last` calls and one for each ARN are enough for
  -- the report of the groups to end, and no index of it is out of range: it has the resources that
  -- its callback made, in their order, of which at most the metadata has changed.
  pub list_groups-Reports :
      (last fuel : ℕ)
      → Over client.last_used session last
      → last + length (groups_listing client session).arns ≤ fuel
      → Reports
          (map without_metadata (groups_listing client session).resources)
          (list_groups client session fuel)
  unfolding list_groups walk_entities
  list_groups-Reports last fuel over enough =
      let groups = client.groups session in
      finish-Reports last fuel (groups_listing client session, _) over enough
        (walk_inv (add_group client session) HasResources add_group-HasResources groups.pages
          groups.error empty_listing (omega arith))

  -- The same for the roles.
  pub list_roles-Reports :
      (last fuel : ℕ)
      → Over client.last_used session last
      → last + length (roles_listing client session).arns ≤ fuel
      → Reports
          (map without_metadata (roles_listing client session).resources)
          (list_roles client session fuel)
  unfolding list_roles walk_entities
  list_roles-Reports last fuel over enough =
      let roles = client.roles session in
      finish-Reports last fuel (roles_listing client session, _) over enough
        (walk_inv (add_role client session) HasResources add_role-HasResources roles.pages
          roles.error empty_listing (omega arith))

  -- The listing of a policy whose versions cannot be listed.
  abbrev noted : Entity → Text → Listing
  noted p e = record { resources = []; error = some e; arns = p.arn ∷ []; access_keys = [] }

  add_policy-noted :
      (p : Entity) (resource : Resource) (e : Text)
      → new_resource p.arn p.metadata ≡ ok resource
      → (list_policy_versions client.policies session p.arn).error ≡ some e
      → add_policy client session p empty_listing ≡ (noted p e, false)
  unfolding add_policy
  add_policy-noted p resource e made failed = rw (made, add_policy, take_report, failed) refl

  walk_policies-noted :
      (p : Entity) (ps : List Entity) (pages : List (List Entity)) (error : Option Text)
      (resource : Resource) (e : Text)
      → new_resource p.arn p.metadata ≡ ok resource
      → (list_policy_versions client.policies session p.arn).error ≡ some e
      → walk (add_policy client session) ((p ∷ ps) ∷ pages) error empty_listing ≡ (noted p e, none)
  unfolding walk each
  walk_policies-noted p ps pages error resource e made failed =
      ap
        (λ (x : Listing × Bool).
          proceed none (proceed false x (each (add_policy client session) ps))
            (walk (add_policy client session) pages error))
        (add_policy-noted p resource e made failed)

  generate_details_of-one :
      (arn job_id : Text)
      → client.last_used.generate_details session arn ≡ ok job_id
      → generate_details_of client.last_used session (arn ∷ []) ≡ ok (job_id ∷ [])
  unfolding generate_details_of
  generate_details_of-one arn job_id job = rw (job, generate_details_of) refl

  record_last_used-none :
      (details : LastAccessed)
      → details.job_status ≡ codes "COMPLETED"
      → record_last_used client.last_used 0 details (record { resources = []; error = none }) ≡ none
  unfolding record_last_used update_at
  record_last_used-none details completed = rw (completed, record_last_used) refl

  completed-over :
      (details : LastAccessed)
      → details.job_status ≡ codes "COMPLETED"
      → in_progress client.last_used details ≡ false
  completed-over details completed = rw completed refl

  attach_listing-noted :
      (n : ℕ) (p : Entity) (e job_id : Text) (details : LastAccessed)
      → client.last_used.generate_details session p.arn ≡ ok job_id
      → client.last_used.last_accessed_details session 0 job_id ≡ ok details
      → details.job_status ≡ codes "COMPLETED"
      → attach_listing client session (suc n) (noted p e) ≡ index_out_of_range
  unfolding attach_listing attach
  attach_listing-noted n p e job_id details job answer completed =
      rw
        (
          generate_details_of-one p.arn job_id job,
          attach_listing,
          answer,
          attach,
          completed-over details completed,
          record_last_used-none details completed,
        )
        refl

  -- The report of the policies stops with a panic if the first policy's versions cannot be listed
  -- and the job for it is completed: the ARN has been noted, but no resource.
  pub list_policies_out_of_range :
      (n : ℕ) (p : Entity) (ps : List Entity) (pages : List (List Entity)) (resource : Resource)
      (e job_id : Text) (details : LastAccessed)
      → (client.local_policies session).pages ≡ (p ∷ ps) ∷ pages
      → new_resource p.arn p.metadata ≡ ok resource
      → (list_policy_versions client.policies session p.arn).error ≡ some e
      → client.last_used.generate_details session p.arn ≡ ok job_id
      → client.last_used.last_accessed_details session 0 job_id ≡ ok details
      → details.job_status ≡ codes "COMPLETED"
      → list_policies client session (suc n) ≡ index_out_of_range
  unfolding list_policies walk_entities finish
  list_policies_out_of_range n p ps pages resource e job_id details first made failed job answer
        completed =
      rw
        (
          first,
          walk_policies-noted p ps pages (client.local_policies session).error resource e made
              failed,
        )
        (attach_listing-noted n p e job_id details job answer completed)
