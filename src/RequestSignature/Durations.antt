-- ===== src/RequestSignature/Durations.antt =====
-- What lambda/sign-ssh-key/handler.go makes of a request of iam/request-ssh-key-signature/main.go.
use awstools.Prelude.{◌≡◌, sym, ◌∙◌, arith, false, some, List, ok, >>=-eq-ok}
use awstools.Prelude.Int.{ℤ, pos, negsuc, ltb_ℤ}
use awstools.Prelude.Text.{Text}
use awstools.Lambda.Handler.{
  SignSshKeyEvent, SignSshKeyResponse, World, is_below_one, require, validate_event, check_request,
  handle,
}
use awstools.Lambda.Environment.{Environment}
use awstools.RequestSignature.{seconds, LambdaPayload, Flags, RequestWorld, payload_of}

-- The event that the lambda function decodes: the two structs have the same names in JSON.
abbrev pub event_of : LambdaPayload → SignSshKeyEvent
event_of p = record {
  identity_url = p.identity_url;
  environment = p.environment;
  ssh_public_key = p.ssh_public_key;
  duration = some p.duration;
  source_addresses = p.source_addresses;
}

validate_event-above :
    (event : SignSshKeyEvent) (u : Unit {0})
    → validate_event event ≡ ok u
    → is_below_one event.duration ≡ false
unfolding validate_event require
validate_event-above event u h = ground arith

seconds-below_one : (d : ℤ) → ltb_ℤ (seconds d) (pos 1) ≡ ltb_ℤ d (pos 1000000000)
unfolding seconds
seconds-below_one (pos n) = ground arith
seconds-below_one (negsuc n) = ground arith

check_request-above :
    (w : World) (max_age : ℤ) (event : SignSshKeyEvent) {r : Environment × List Text × ℤ}
    → check_request w max_age event ≡ ok r
    → is_below_one event.duration ≡ false
unfolding check_request
check_request-above w max_age event h =
    let (u, valid, _) = >>=-eq-ok (validate_event event) _ h in validate_event-above event u valid

-- A request for less than a second is sent with the duration 0, or a negative one, and the lambda
-- function refuses it: a request that is granted was for a second at least.
pub handle-payload_seconds :
    (v : RequestWorld) (w : World) (max_age : ℤ) (flags : Flags) (url key : Text)
    (response : SignSshKeyResponse)
    → handle w max_age (event_of (payload_of v flags url key)) ≡ ok response
    → ltb_ℤ flags.duration (pos 1000000000) ≡ false
unfolding handle payload_of
handle-payload_seconds v w max_age flags url key response h =
    let event = event_of (payload_of v flags url key) in
    let (r, checked, _) = >>=-eq-ok (check_request w max_age event) _ h in
    sym (seconds-below_one flags.duration) ∙ check_request-above w max_age event checked
