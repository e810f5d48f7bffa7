-- ===== src/Common/Sts/Checks.antt =====
-- What STSFetchIdentityURL has checked when it sends a request.
use awstools.Prelude.{
  ◌≡◌, refl, arith, Bool, true, false, not, [], ◌∷◌, ok, err, Result-cases, inl, inr, >>=-eq-ok,
  map_err, map_err-eq-ok, ◌⊎◌,
}
use awstools.Prelude.Text.{Text, codes, eq_text_iff}
use awstools.Prelude.Int.{ℤ, ◌-ℤ◌, ◌≤ℤ◌, ltb_ℤ}
use awstools.Common.Sts.{
  Url, StsWorld, StsError, not_get_caller_identity, other, guard, is_sts_call, check_identity_url,
  sts_fetch_identity_url,
}

-- A presigned call of sts:GetCallerIdentity that is not older than `max_age`.
pub record IsFreshStsCall (w : StsWorld) (identity_url : Text) (max_age : ℤ) : Type 0 where
  pub url : Url
  pub date : ℤ
  pub parsed : w.parse_url identity_url ≡ ok url
  pub dated : w.parse_date (url.query (codes "X-Amz-Date")) ≡ ok date
  pub host : url.host ≡ codes "sts.amazonaws.com"
  pub action : url.query (codes "Action") ≡ codes "GetCallerIdentity"
  pub scheme : url.scheme ≡ codes "https"
  pub fresh : w.now -ℤ date ≤ℤ max_age

guard-eq-ok : (b : Bool) (x : StsError) {u : Unit {0}} → guard b x ≡ ok u → b ≡ true
unfolding guard
guard-eq-ok true x h = refl
guard-eq-ok false x h = cc

is_sts_call_sound :
    (url : Url)
    → is_sts_call url ≡ true
    → (url.host ≡ codes "sts.amazonaws.com")
      × (url.query (codes "Action") ≡ codes "GetCallerIdentity")
      × (url.scheme ≡ codes "https")
is_sts_call_sound url h = (
  (eq_text_iff url.host (codes "sts.amazonaws.com")).0 (ground arith),
  (eq_text_iff (url.query (codes "Action")) (codes "GetCallerIdentity")).0 (ground arith),
  (eq_text_iff url.scheme (codes "https")).0 (ground arith),
)

age_bound : (max_age age : ℤ) → not (ltb_ℤ max_age age) ≡ true → age ≤ℤ max_age
age_bound max_age age h = ground arith

check_identity_url_sound :
    (w : StsWorld) (identity_url : Text) (max_age : ℤ)
    → check_identity_url w identity_url max_age ≡ ok tt
    → IsFreshStsCall w identity_url max_age
unfolding check_identity_url
check_identity_url_sound w identity_url max_age e =
    let (url, parsed, e1) = >>=-eq-ok (map_err other (w.parse_url identity_url)) _ e in
    let (date, dated, e2) =
      >>=-eq-ok (map_err other (w.parse_date (url.query (codes "X-Amz-Date")))) _ e1 in
    let (u, called, e3) = >>=-eq-ok (guard (is_sts_call url) not_get_caller_identity) _ e2 in
    let call = is_sts_call_sound url (guard-eq-ok _ _ called) in
    record {
      url = url;
      date = date;
      parsed = map_err-eq-ok other (w.parse_url identity_url) parsed;
      dated = map_err-eq-ok other (w.parse_date (url.query (codes "X-Amz-Date"))) dated;
      host = call.0;
      action = call.1;
      scheme = call.2;
      fresh = age_bound max_age (w.now -ℤ date) (guard-eq-ok _ _ e3);
    }

-- A request is sent, to the given URL and to no other, only for a fresh call of
-- sts:GetCallerIdentity over HTTPS; in any other case nothing is requested and the result is an
-- error.
pub sts_fetch_identity_url-requests :
    (w : StsWorld) (identity_url : Text) (max_age : ℤ)
    → (((sts_fetch_identity_url w identity_url max_age).0 ≡ identity_url ∷ [])
        × IsFreshStsCall w identity_url max_age)
      ⊎ (((sts_fetch_identity_url w identity_url max_age).0 ≡ [])
          × ((e : StsError) × ((sts_fetch_identity_url w identity_url max_age).1 ≡ err e)))
unfolding sts_fetch_identity_url
sts_fetch_identity_url-requests w identity_url max_age =
    elim (Result-cases (check_identity_url w identity_url max_age)) [
      | inl (u, e) ↦
          inl (rw (e, sts_fetch_identity_url), check_identity_url_sound w identity_url max_age e)
      | inr (x, e) ↦ inr (rw (e, sts_fetch_identity_url), (x, rw (e, sts_fetch_identity_url)))
    ]
