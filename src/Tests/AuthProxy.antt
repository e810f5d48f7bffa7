-- ===== src/Tests/AuthProxy.antt =====
-- A server of the account 33 that asks for a token.
use awstools.Prelude.{◌≡◌, refl, [], ◌∷◌, ◌++◌, ok, some}
use awstools.Prelude.Text.{codes}
use awstools.AuthProxy.{Response, ProxyWorld, Flags, redirect, forbidden, on_response}
use awstools.AuthProxy.Tokens.{Authorised, on_response-Authorised}

abbrev world : ProxyWorld
world = record {
  find_realm = λ header. header ∷ codes "33" ∷ [];
  decode_base64 = λ s. s;
  encode_base64 = λ s. s;
  unmarshal_strings = λ s. ok [];
  get_caller_identity = ok (codes "33");
  new_session = ok tt;
  session_token = ok (codes "own");
  session_token_without_role = ok (codes "user");
  marshal_credentials = λ s. ok s;
  encrypt = λ key context plain. ok plain;
  url_string = λ path query. path ++ query;
  encode_parameters = λ token url. token ++ url;
}

abbrev flags : Flags
flags = record { role_arn = codes "r"; mfa_serial_number = [] }

abbrev unauthorised : Response
unauthorised = record {
  status_code = 401;
  www_authenticate = codes "IAM" ∷ [];
  kms_key_id = codes "k" ∷ [];
  kms_encryption_context = codes "c" ∷ [];
  request = record { host = codes "h"; path = codes "/p"; raw_query = [] };
}

on_response-redirect :
    on_response world flags (some unauthorised) ≡ redirect (codes "h") (codes "user/p")
unfolding on_response
on_response-redirect = refl

on_response-stranger :
    on_response (record world { get_caller_identity = ok (codes "34") }) flags (some unauthorised)
    ≡ forbidden (codes "The IAM identity does not match the server realm (expected: 33)")
unfolding on_response
on_response-stranger = refl

on_response-Authorised_example : Authorised world unauthorised
on_response-Authorised_example =
    on_response-Authorised world flags unauthorised (codes "h") (codes "user/p")
      on_response-redirect
