-- ===== src/Tests/Sts.antt =====
-- A presigned URL that STSFetchIdentityURL accepts.
use awstools.Prelude.{◌≡◌, refl, ◌⊎◌, some, [], ◌∷◌, ok, err}
use awstools.Prelude.Text.{codes}
use awstools.Prelude.Int.{pos, ◌-ℤ◌}
use awstools.Common.Sts.{Url, Identity, StsWorld, StsError, sts_fetch_identity_url}
use awstools.Common.Sts.Checks.{IsFreshStsCall, sts_fetch_identity_url-requests}

-- The query has the action GetCallerIdentity, also where another parameter is read.
abbrev caller_url : Url
caller_url = record {
  scheme = codes "https";
  host = codes "sts.amazonaws.com";
  query = λ key. codes "GetCallerIdentity";
}

abbrev pub user_identity : Identity
user_identity = record {
  account = some (codes "1");
  arn = some (codes "arn:aws:iam::1:user/bob");
  user_id = some (codes "b");
}

-- The URL was signed a second ago.
abbrev pub sts_world : StsWorld
sts_world = record {
  parse_url = λ s. ok caller_url;
  parse_date = λ s. ok (pos 9000000000);
  now = pos 10000000000;
  http_get = λ s. ok (codes "<xml/>");
  unmarshal_identity = λ s. ok user_identity;
}

pub fetch_user :
    sts_fetch_identity_url sts_world (codes "u") (pos 5000000000)
    ≡ (codes "u" ∷ [], ok user_identity)
unfolding sts_fetch_identity_url ◌-ℤ◌
fetch_user = refl

sts_fetch_identity_url-requests_example :
    (((sts_fetch_identity_url sts_world (codes "u") (pos 5000000000)).0 ≡ codes "u" ∷ [])
      × IsFreshStsCall sts_world (codes "u") (pos 5000000000))
    ⊎ (((sts_fetch_identity_url sts_world (codes "u") (pos 5000000000)).0 ≡ [])
        × ((e : StsError) × ((sts_fetch_identity_url sts_world (codes "u") (pos 5000000000)).1
              ≡ err e)))
sts_fetch_identity_url-requests_example =
    sts_fetch_identity_url-requests sts_world (codes "u") (pos 5000000000)
