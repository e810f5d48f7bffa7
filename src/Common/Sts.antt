-- ===== src/Common/Sts.antt =====
-- common/sts.go: STSFetchIdentityURL. Parsing URLs and dates, the clock, the HTTP client and the XML
-- decoder are parameters.
pub mod Checks
use awstools.Prelude.{
  Bool, true, false, not, ◌||◌, Option, none, some, List, [], ◌∷◌, Result, ok, err, ◌>>=◌, map_err,
  ◌>>◌, if◌then◌else◌,
}
use awstools.Prelude.Text.{Text, codes, eq_text}
use awstools.Prelude.Int.{ℤ, ◌-ℤ◌, ltb_ℤ}

pub record Url : Type 0 where
  pub scheme : Text
  pub host : Text
  -- url.Query().Get
  pub query : Text → Text

-- GetCallerIdentityOutput; a missing field is `none`.
pub record Identity : Type 0 where
  pub account : Option Text
  pub arn : Option Text
  pub user_id : Option Text

-- Times and durations are in nanoseconds.
pub record StsWorld : Type 0 where
  pub parse_url : Text → Result Text Url
  pub parse_date : Text → Result Text ℤ
  pub now : ℤ
  pub http_get : Text → Result Text Text
  pub unmarshal_identity : Text → Result Text Identity

pub data StsError : Type 0 where
  other : Text → StsError
  not_get_caller_identity : StsError
  too_old : StsError

unfoldable pub guard : Bool → StsError → Result StsError (Unit {0})
guard true e = ok tt
guard false e = err e

-- The condition of the third check fails.
abbrev pub is_sts_call : Url → Bool
is_sts_call url = not (
    not (eq_text url.host (codes "sts.amazonaws.com"))
    || (not (eq_text (url.query (codes "Action")) (codes "GetCallerIdentity"))
        || not (eq_text url.scheme (codes "https"))))

-- What STSFetchIdentityURL does before it sends the request.
unfoldable pub check_identity_url : StsWorld → Text → ℤ → Result StsError (Unit {0})
unfolding guard
check_identity_url w identity_url max_age = do
  url ← map_err other (w.parse_url identity_url)
  date ← map_err other (w.parse_date (url.query (codes "X-Amz-Date")))
  guard (is_sts_call url) not_get_caller_identity
  guard (not (ltb_ℤ max_age (w.now -ℤ date))) too_old

unfoldable pub read_identity : StsWorld → Text → Result StsError Identity
read_identity w identity_url = do
  body ← map_err other (w.http_get identity_url)
  map_err other (w.unmarshal_identity body)

-- STSFetchIdentityURL; beside the result stand the URLs that were requested.
unfoldable pub sts_fetch_identity_url : StsWorld → Text → ℤ → List Text × Result StsError Identity
unfolding check_identity_url read_identity
sts_fetch_identity_url w identity_url max_age = elim (check_identity_url w identity_url max_age) [
  | err e ↦ ([], err e)
  | ok _ ↦ (identity_url ∷ [], read_identity w identity_url)
]
