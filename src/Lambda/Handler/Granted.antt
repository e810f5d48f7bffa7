-- ===== src/Lambda/Handler/Granted.antt =====
-- What a granted request has passed, and what its certificate says.
use awstools.Prelude.{
  ◌≡◌, refl, ap, arith, Bool, true, false, not, Option, none, some, List, [], ◌∷◌, ◌++◌, ok,
  >>=-eq-ok, map_err, map_err-eq-ok, ok-injective,
}
use awstools.Prelude.Text.{Text, codes, eq_text, eq_text_iff, is_empty}
use awstools.Prelude.Int.{ℤ, ltb_ℤ, ◌≤ℤ◌, nanoseconds, to_int64}
use awstools.Common.Arn.{Arn, parse_arn}
use awstools.Common.Sts.{Identity, sts_fetch_identity_url}
use awstools.Lambda.Ip.{validate_ip_ranges}
use awstools.Lambda.Environment.{Environment, load_environment}
use awstools.Lambda.Signer.{Certificate, Signer, init, sign}
use awstools.Lambda.Handler.{
  World, SignSshKeyEvent, SignSshKeyResponse, HandlerError, environment_failed,
  invalid_source_addresses, duration_exceeds_maximum, caller_not_verified, identity_arn_invalid,
  not_an_iam_user, signer_failed, uuid_failed, empty_certificate, require, deref, validate_event,
  choose_duration, check_request, check_caller, make_certificate, handle,
}

require-eq-ok : (b : Bool) (x : HandlerError) {u : Unit {0}} → require b x ≡ ok u → b ≡ true
unfolding require
require-eq-ok true x h = refl
require-eq-ok false x h = cc

deref-eq-ok {ℓ} : {A : Type ℓ} (o : Option A) {a : A} → deref o ≡ ok a → o ≡ some a
unfolding deref
deref-eq-ok none h = cc
deref-eq-ok (some b) h = cc

not_above : (d m : ℤ) → not (ltb_ℤ m d) ≡ true → d ≤ℤ m
not_above d m h = ground arith

module _ (w : World) (max_age : ℤ) (event : SignSshKeyEvent) where
  -- The request was valid, and its duration and source addresses are allowed.
  pub record IsAllowed (environment : Environment) (addresses : List Text) (duration : ℤ)
      : Type 0 where
    pub loaded :
        load_environment w.config w.filename w.decode_environment event.environment ≡ ok environment
    pub ranges :
        validate_ip_ranges w.parse_cidr event.source_addresses environment.source_addresses
        ≡ ok addresses
    pub maximum : ℤ
    pub limit : environment.validity_max_duration ≡ some maximum
    pub chosen : duration ≡ choose_duration event.duration maximum
    pub within : duration ≤ℤ maximum

  check_request_sound :
      (environment : Environment) (addresses : List Text) (duration : ℤ)
      → check_request w max_age event ≡ ok (environment, addresses, duration)
      → IsAllowed environment addresses duration
  unfolding check_request
  check_request_sound environment addresses duration e =
      let (u, valid, e1) = >>=-eq-ok (validate_event event) _ e in
      let (env, loaded, e2) =
        >>=-eq-ok
          (map_err environment_failed
            (load_environment w.config w.filename w.decode_environment event.environment))
          _ e1 in
      let (addrs, ranges, e3) =
        >>=-eq-ok
          (map_err invalid_source_addresses
            (validate_ip_ranges w.parse_cidr event.source_addresses env.source_addresses))
          _ e2 in
      let (maximum, limit, e4) = >>=-eq-ok (deref env.validity_max_duration) _ e3 in
      let (v, within, e5) =
        >>=-eq-ok
          (require (not (ltb_ℤ maximum (choose_duration event.duration maximum)))
            duration_exceeds_maximum)
          _ e4 in
      let same = ok-injective e5 in
      rw
        (
          ← ap (λ (t : Environment × List Text × ℤ). t.0) same,
          ← ap (λ (t : Environment × List Text × ℤ). t.1) same,
          ← ap (λ (t : Environment × List Text × ℤ). t.2) same,
        )
        (record {
          loaded =
              map_err-eq-ok _
                (load_environment w.config w.filename w.decode_environment event.environment)
                loaded;
          ranges =
              map_err-eq-ok _
                (validate_ip_ranges w.parse_cidr event.source_addresses env.source_addresses)
                ranges;
          maximum = maximum;
          limit = deref-eq-ok env.validity_max_duration limit;
          chosen = refl;
          within =
              not_above (choose_duration event.duration maximum) maximum (require-eq-ok _ _ within);
        })

  -- The caller proved to be an IAM user.
  pub record IsUser (arn : Text) (user : Arn) : Type 0 where
    pub identity : Identity
    pub fetched : (sts_fetch_identity_url w.sts event.identity_url max_age).1 ≡ ok identity
    pub named : identity.arn ≡ some arn
    pub parsed : parse_arn arn ≡ ok user
    pub kind : user.resource_type ≡ codes "user"

  check_caller_sound :
      (arn : Text) (user : Arn) → check_caller w max_age event ≡ ok (arn, user) → IsUser arn user
  unfolding check_caller
  check_caller_sound arn user e =
      let (identity, fetched, e1) =
        >>=-eq-ok
          (map_err caller_not_verified (sts_fetch_identity_url w.sts event.identity_url max_age).1)
          _ e in
      let (text, named, e2) = >>=-eq-ok (deref identity.arn) _ e1 in
      let (parsed_arn, parsed, e3) =
        >>=-eq-ok (map_err (λ x. identity_arn_invalid) (parse_arn text)) _ e2 in
      let (v, kind, e4) =
        >>=-eq-ok (require (eq_text parsed_arn.resource_type (codes "user")) not_an_iam_user) _
          e3 in
      let same = ok-injective e4 in
      rw (← ap (λ (t : Text × Arn). t.0) same, ← ap (λ (t : Text × Arn). t.1) same)
        (record {
          identity = identity;
          fetched =
              map_err-eq-ok _ (sts_fetch_identity_url w.sts event.identity_url max_age).1 fetched;
          named = deref-eq-ok identity.arn named;
          parsed = map_err-eq-ok _ (parse_arn text) parsed;
          kind = (eq_text_iff parsed_arn.resource_type (codes "user")).0 (require-eq-ok _ _ kind);
        })

  -- The certificate was signed by the key of the environment, for the user and the addresses alone.
  pub record IsCertified (environment : Environment) (addresses : List Text) (duration : ℤ)
      (arn : Text) (user : Arn) (cert : Certificate) : Type 0 where
    pub offset : ℤ
    pub start : environment.validity_start_offset ≡ some offset
    pub signer : Signer
    pub ready :
        init w.ssh environment.ca.private_key environment.ca.private_key_passphrase
          environment.ca.public_key
          (to_int64 (nanoseconds offset))
          (to_int64 (nanoseconds duration))
        ≡ ok signer
    pub uuid : Text
    pub signed :
        sign w.ssh signer event.ssh_public_key
          (arn ++ (codes "/" ++ uuid))
          (user.resource ∷ [])
          addresses
        ≡ ok cert

  make_certificate_sound :
      (environment : Environment) (addresses : List Text) (duration : ℤ) (arn : Text) (user : Arn)
      (cert : Certificate)
      → make_certificate w max_age event environment addresses duration arn user ≡ ok cert
      → IsCertified environment addresses duration arn user cert
  unfolding make_certificate
  make_certificate_sound environment addresses duration arn user cert e =
      let (offset, start, e1) = >>=-eq-ok (deref environment.validity_start_offset) _ e in
      let (signer, ready, e2) =
        >>=-eq-ok
          (map_err signer_failed (
            init w.ssh environment.ca.private_key environment.ca.private_key_passphrase
              environment.ca.public_key (to_int64 (nanoseconds offset))
              (to_int64 (nanoseconds duration))))
          _ e1 in
      let (uuid, generated, e3) = >>=-eq-ok (map_err uuid_failed w.generate_uuid) _ e2 in
      record {
        offset = offset;
        start = deref-eq-ok environment.validity_start_offset start;
        signer = signer;
        ready = map_err-eq-ok _ (init w.ssh _ _ _ _ _) ready;
        uuid = uuid;
        signed =
            map_err-eq-ok _
              (sign w.ssh signer event.ssh_public_key (arn ++ (codes "/" ++ uuid))
                (user.resource ∷ []) addresses)
              e3;
      }

  pub record IsGranted (response : SignSshKeyResponse) : Type 0 where
    pub environment : Environment
    pub addresses : List Text
    pub arn : Text
    pub user : Arn
    pub cert : Certificate
    pub allowed : IsAllowed environment addresses response.duration
    pub caller : IsUser arn user
    pub certified : IsCertified environment addresses response.duration arn user cert
    pub returned : response.certificate ≡ w.ssh.marshal_authorized_key cert
    pub expiry : response.valid_before ≡ cert.valid_before

  -- A response is given only to an IAM user whose identity URL was verified, for a duration of at
  -- most the environment's maximum and for source addresses that ValidateIPRanges returned; its
  -- certificate was signed with the environment's key for that user alone.
  pub handle-IsGranted :
      (response : SignSshKeyResponse) → handle w max_age event ≡ ok response → IsGranted response
  unfolding handle
  handle-IsGranted response e =
      let (request, checked, e1) = >>=-eq-ok (check_request w max_age event) _ e in
      let (caller, verified, e2) = >>=-eq-ok (check_caller w max_age event) _ e1 in
      let (cert, made, e3) =
        >>=-eq-ok (make_certificate w max_age event request.0 request.1 request.2 caller.0 caller.1)
          _ e2 in
      let (u, present, e4) =
        >>=-eq-ok (require (not (is_empty (w.ssh.marshal_authorized_key cert))) empty_certificate) _
          e3 in
      rw (← ok-injective e4) (record {
        environment = request.0;
        addresses = request.1;
        arn = caller.0;
        user = caller.1;
        cert = cert;
        allowed = check_request_sound request.0 request.1 request.2 checked;
        caller = check_caller_sound caller.0 caller.1 verified;
        certified =
            make_certificate_sound request.0 request.1 request.2 caller.0 caller.1 cert made;
        returned = refl;
        expiry = refl;
      })
