-- ===== src/Dump/Iam/Authorization.antt =====
-- aws/dump/resources/iam.go: IAMListAccountAuthorizationDetails, whose callback has a loop for each
-- of the four lists of its page.
use awstools.Prelude.{Bool, true, false, List, [], ◌∷◌, ◌++◌, Result, ok, err, ◌>>=◌}
use awstools.Prelude.Text.{Text, codes}
use awstools.Common.Config.Values.{Fields, Items, object, list, nil, cons, put}
use awstools.Dump.Jobs.{Resource, Session, ReportResult}
use awstools.Dump.Reports.Pages.{
  Pages, Callback, each, proceed, walk_pages, overwrite_error, add_resources, stop_with,
}
use awstools.Dump.Reports.Documents.{DocumentWorld, decode_at, decode_each}
use awstools.Dump.Iam.{iam_resource}

-- A group, a user or a policy, with its inline policies or its versions: each is the text of its
-- document and its map.
pub record Detail : Type 0 where
  pub id : Text
  pub arn : Text
  pub documents : List (Text × Fields)
  pub metadata : Fields

pub record RoleDetail : Type 0 where
  pub id : Text
  pub arn : Text
  pub assume_role_policy_document : Text
  -- the roles of each instance profile, and its map
  pub instance_profiles : List (List (Text × Fields) × Fields)
  pub metadata : Fields

pub record DetailPage : Type 0 where
  pub groups : List Detail
  pub users : List Detail
  pub roles : List RoleDetail
  pub policies : List Detail

pub record AuthorizationClient : Type 0 where
  -- each page is its only item
  pub details : Session → Pages DetailPage
  pub documents : DocumentWorld

-- What a loop does with a resource, or with the error of a document.
abbrev pub add_or_stop : Result Text Resource → ReportResult → ReportResult × Bool
add_or_stop (err e) result = stop_with e result
add_or_stop (ok r) result = (add_resources (r ∷ []) result, true)

module _ (client : AuthorizationClient) (session : Session) where
  abbrev pub authorization_resource : Text → Text → Text → Fields → Resource
  authorization_resource kind id arn metadata =
      iam_resource session [] (codes "account-authorization-details-" ++ kind) id arn metadata

  -- The loops over the groups, the users and the policies: the kind, the key of the list in the
  -- metadata and the key of the document in its entries.
  unfoldable pub add_detail : Text → Text → Text → Callback Detail
  unfolding decode_each
  add_detail kind list_key key d result =
      add_or_stop
        (do
          documents ← decode_each client.documents key d.documents
          ok (authorization_resource kind d.id d.arn (put list_key (list documents) d.metadata)))
        result

  -- The loop over the instance profiles of a role.
  unfoldable pub decode_profiles : List (List (Text × Fields) × Fields) → Result Text Items
  unfolding decode_each
  decode_profiles [] = ok nil
  decode_profiles ((roles, metadata) ∷ profiles) = do
    decoded ← decode_each client.documents (codes "AssumeRolePolicyDocument") roles
    rest ← decode_profiles profiles
    ok (cons (object (put (codes "Roles") (list decoded) metadata)) rest)

  -- The loop over the roles.
  unfoldable pub add_role_detail : Callback RoleDetail
  unfolding decode_at decode_profiles
  add_role_detail r result =
      add_or_stop
        (do
          metadata ←
              decode_at client.documents (codes "AssumeRolePolicyDocument")
                r.assume_role_policy_document r.metadata
          profiles ← decode_profiles r.instance_profiles
          ok (
              authorization_resource (codes "role") r.id r.arn
                (put (codes "InstanceProfileList") (list profiles) metadata)))
        result

  -- The callback, for one page.
  unfoldable pub add_page : Callback DetailPage
  unfolding each add_detail add_role_detail
  add_page page result =
      proceed false
        (each (add_detail (codes "group") (codes "GroupPolicyList") (codes "PolicyDocument"))
          page.groups result)
        (λ r1.
          proceed false
            (each (add_detail (codes "user") (codes "UserPolicyList") (codes "PolicyDocument"))
              page.users r1)
            (λ r2. proceed false (each add_role_detail page.roles r2) (λ r3.
              each (add_detail (codes "policy") (codes "PolicyVersionList") (codes "Document"))
                page.policies r3)))

  -- IAMListAccountAuthorizationDetails
  unfoldable pub list_account_authorization_details : ReportResult
  unfolding walk_pages overwrite_error add_page
  list_account_authorization_details =
      overwrite_error (walk_pages add_page (client.details session))
