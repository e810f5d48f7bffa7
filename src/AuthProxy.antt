-- ===== src/AuthProxy.antt =====
-- iam/auth-proxy/main.go: what the proxy does with each response of a server. The regular expression,
-- base64, encoding/json, net/url and the AWS clients are parameters.
pub mod Tokens
use awstools.Prelude.{
  ℕ, Bool, true, false, not, ◌||◌, ◌==◌, Option, none, some, List, [], ◌∷◌, ◌++◌, Result, ok, err,
  ◌>>=◌, map_err, ◌>>◌, if◌then◌else◌,
}
use awstools.Prelude.Text.{Text, codes, eq_text, is_empty}

pub record Request : Type 0 where
  pub host : Text
  pub path : Text
  pub raw_query : Text

-- The parts of a response that are read: the values of three headers.
pub record Response : Type 0 where
  pub status_code : ℕ
  pub www_authenticate : List Text
  pub kms_key_id : List Text
  pub kms_encryption_context : List Text
  pub request : Request

-- What the proxy sends on: the response as it is, the page of `forbidden`, or that of `redirect`.
pub data Answer : Type 0 where
  unchanged : Answer
  forbidden : Text → Answer
  -- the host and the query of the new location, whose path is /auth
  redirect : Text → Text → Answer

pub record Flags : Type 0 where
  pub role_arn : Text
  pub mfa_serial_number : Text

pub record ProxyWorld : Type 0 where
  -- authHeaderRegex.FindStringSubmatch
  pub find_realm : Text → List Text
  -- The bytes that DecodeString returns, also with an error.
  pub decode_base64 : Text → Text
  pub encode_base64 : Text → Text
  pub unmarshal_strings : Text → Result Text (List (Text × Text))
  -- the account of GetCallerIdentity, in the session that the flags open
  pub get_caller_identity : Result Text Text
  pub new_session : Result Text (Unit {0})
  -- json.Marshal of the credentials of GetSessionToken: in the session of the flags, and without role
  pub session_token : Result Text Text
  pub session_token_without_role : Result Text Text
  pub marshal_credentials : Text → Result Text Text
  -- the key, the encryption context and the plain text
  pub encrypt : Text → List (Text × Text) → Text → Result Text Text
  pub url_string : Text → Text → Text
  pub encode_parameters : Text → Text → Text

-- A refusal, as the error of what follows.
abbrev pub or_forbidden : {A : Type 0} → Text → Result Text A → Result Answer A
or_forbidden message r = map_err (λ e. forbidden message) r

-- header[0], or the refusal for an empty header
abbrev pub first_or : Text → List Text → Result Answer Text
first_or message [] = err (forbidden message)
first_or message (value ∷ rest) = ok value

abbrev pub invalid : Text → Text
invalid what = codes "Invalid auth headers returned by the server: " ++ what

abbrev pub answer_of : Result Answer Answer → Answer
answer_of (ok a) = a
answer_of (err a) = a

-- if *identity.Account != realm[1]
abbrev pub check_realm : Text → Text → Result Answer (Unit {0})
check_realm account realm =
    if eq_text account realm
    then ok tt
    else err (
        forbidden (
          codes "The IAM identity does not match the server realm (expected: "
          ++ (realm ++ codes ")")))

module _ (w : ProxyWorld) (flags : Flags) where
  -- The client for the session token: without the role, if there is a role or an MFA device.
  unfoldable pub get_session_token : Result Answer Text
  get_session_token =
      if not (is_empty flags.role_arn) || not (is_empty flags.mfa_serial_number)
      then (or_forbidden (codes "Failed to open IAM session") w.new_session
          >> or_forbidden (codes "Could not get a session token") w.session_token_without_role)
      else or_forbidden (codes "Could not get a session token") w.session_token

  -- From the headers with the key on.
  unfoldable pub authenticate : Response → Text → Result Answer Answer
  unfolding get_session_token
  authenticate r realm = do
    kms_key_id ← first_or (invalid (codes "Misssing KMS key ID")) r.kms_key_id
    context_base64 ←
        first_or (invalid (codes "Missing KMS encryption context")) r.kms_encryption_context
    encryption_context ←
        or_forbidden (invalid (codes "Can't decode KMS encryption context"))
          (w.unmarshal_strings (w.decode_base64 context_base64))
    account ←
        or_forbidden (codes "Could not fetch IAM identity to authenticate") w.get_caller_identity
    check_realm account realm
    credentials ← get_session_token
    serialized ←
        or_forbidden (codes "Could not get a session token") (w.marshal_credentials credentials)
    ciphertext ←
        or_forbidden (codes "Could not get encrypt token")
          (w.encrypt kms_key_id encryption_context serialized)
    ok (
        redirect r.request.host (
          w.encode_parameters (w.encode_base64 ciphertext)
            (w.url_string r.request.path r.request.raw_query)))

  -- realm := FindStringSubmatch(...); len(realm) != 2 is another scheme.
  abbrev pub with_realm : Response → List Text → Answer
  with_realm r (whole ∷ realm ∷ []) = answer_of (authenticate r realm)
  with_realm r _ = unchanged

  abbrev pub with_header : Response → List Text → Answer
  with_header r (header ∷ []) = with_realm r (w.find_realm header)
  with_header r _ = unchanged

  -- The function given to proxy.OnResponse().DoFunc; a nil response is `none`.
  unfoldable pub on_response : Option Response → Answer
  unfolding authenticate
  on_response none = unchanged
  on_response (some r) =
      if r.status_code == 401 then with_header r r.www_authenticate else unchanged
