-- ===== src/AuthProxy/Tokens.antt =====
-- When iam/auth-proxy/main.go gives a session token to a server.
use awstools.Prelude.{
  ◌≡◌, refl, arith, some, List, [], ◌∷◌, Result, ok, err, ◌>>=◌, >>=-eq-ok, ◌==◌, ==_iff,
  Bool-cases, Result-cases, inl, inr, map_err-eq-ok,
}
use awstools.Prelude.Text.{Text, codes, eq_text, eq_text_iff}
use awstools.AuthProxy.{
  Response, Answer, unchanged, forbidden, redirect, Flags, ProxyWorld, or_forbidden, first_or,
  check_realm, get_session_token, authenticate, with_realm, with_header, on_response,
}

-- What holds of a response that is answered with a token: its status, its only header of the scheme,
-- the realm in it, which is the caller's own account, and the key and the context that it names.
pub record Authorised (w : ProxyWorld) (r : Response) : Type 0 where
  pub unauthorised : r.status_code ≡ 401
  pub header : Text
  pub only_header : r.www_authenticate ≡ header ∷ []
  pub whole : Text
  pub realm : Text
  pub has_realm : w.find_realm header ≡ whole ∷ realm ∷ []
  pub same_account : w.get_caller_identity ≡ ok realm

check_realm-eq-ok :
    (account realm : Text) (u : Unit {0}) → check_realm account realm ≡ ok u → account ≡ realm
check_realm-eq-ok account realm u h = ground (arith, eq_text_iff account realm)

module _ (w : ProxyWorld) (flags : Flags) where
  authenticate-account :
      (r : Response) (realm : Text) (a : Answer)
      → authenticate w flags r realm ≡ ok a
      → w.get_caller_identity ≡ ok realm
  unfolding authenticate
  authenticate-account r realm a h =
      let (k, _, h1) = >>=-eq-ok (first_or _ r.kms_key_id) _ h in
      let (b, _, h2) = >>=-eq-ok (first_or _ r.kms_encryption_context) _ h1 in
      let (c, _, h3) = >>=-eq-ok (or_forbidden _ (w.unmarshal_strings (w.decode_base64 b))) _ h2 in
      let (account, named, h4) = >>=-eq-ok (or_forbidden _ w.get_caller_identity) _ h3 in
      let (u, checked, h5) = >>=-eq-ok (check_realm account realm) _ h4 in
      rw (← check_realm-eq-ok account realm u checked) (map_err-eq-ok _ w.get_caller_identity named)

abbrev IsForbidden : Answer → Type 0
IsForbidden (forbidden message) = Unit {0}
IsForbidden unchanged = ⊥
IsForbidden (redirect host query) = ⊥

-- The steps before the token only ever refuse.
abbrev Refuses : {A : Type 0} → Result Answer A → Type 0
Refuses (ok a) = Unit {0}
Refuses (err answer) = IsForbidden answer

>>=-Refuses :
    {A B : Type 0} (m : Result Answer A) (f : A → Result Answer B)
    → Refuses m
    → ((a : A) → Refuses (f a))
    → Refuses (m >>= f)
>>=-Refuses (ok a) f h k = k a
>>=-Refuses (err answer) f h k = h

or_forbidden-Refuses :
    {A : Type 0} (message : Text) (r : Result Text A) → Refuses (or_forbidden message r)
or_forbidden-Refuses message (ok a) = tt
or_forbidden-Refuses message (err e) = tt

first_or-Refuses : (message : Text) (header : List Text) → Refuses (first_or message header)
first_or-Refuses message [] = tt
first_or-Refuses message (value ∷ rest) = tt

check_realm-Refuses : (account realm : Text) → Refuses (check_realm account realm)
check_realm-Refuses account realm = elim (Bool-cases (eq_text account realm)) [
  | inl same ↦ rw same tt
  | inr other ↦ rw other tt
]

module _ (w : ProxyWorld) (flags : Flags) where
  get_session_token-Refuses : Refuses (get_session_token w flags)
  unfolding get_session_token
  get_session_token-Refuses = ground (
    arith,
    or_forbidden-Refuses (codes "Could not get a session token") w.session_token,
    or_forbidden-Refuses (codes "Could not get a session token") w.session_token_without_role,
    or_forbidden-Refuses (codes "Failed to open IAM session") w.new_session,
  )

  authenticate-Refuses : (r : Response) (realm : Text) → Refuses (authenticate w flags r realm)
  unfolding authenticate
  authenticate-Refuses r realm =
      >>=-Refuses (first_or _ r.kms_key_id) _ (first_or-Refuses _ r.kms_key_id) λ k.
        >>=-Refuses (first_or _ r.kms_encryption_context) _
          (first_or-Refuses _ r.kms_encryption_context)
          λ b.
            >>=-Refuses (or_forbidden _ (w.unmarshal_strings (w.decode_base64 b))) _
              (or_forbidden-Refuses _ (w.unmarshal_strings (w.decode_base64 b)))
              λ c.
                >>=-Refuses (or_forbidden _ w.get_caller_identity) _
                  (or_forbidden-Refuses _ w.get_caller_identity)
                  λ account.
                    >>=-Refuses (check_realm account realm) _ (check_realm-Refuses account realm)
                      λ u.
                        >>=-Refuses (get_session_token w flags) _ get_session_token-Refuses λ token.
                          >>=-Refuses (or_forbidden _ (w.marshal_credentials token)) _
                            (or_forbidden-Refuses _ (w.marshal_credentials token))
                            λ s.
                              >>=-Refuses (or_forbidden _ (w.encrypt k c s)) _
                                (or_forbidden-Refuses _ (w.encrypt k c s)) λ t. tt

  with_realm-redirect :
      (r : Response) (parts : List Text) (host query : Text)
      → with_realm w flags r parts ≡ redirect host query
      → (whole : Text) × (realm : Text) × (parts ≡ whole ∷ realm ∷ [])
        × (w.get_caller_identity ≡ ok realm)
  with_realm-redirect r [] host query h = absurd (ground arith)
  with_realm-redirect r (x ∷ []) host query h = absurd (ground arith)
  with_realm-redirect r (x ∷ y ∷ z ∷ zs) host query h = absurd (ground arith)
  with_realm-redirect r (whole ∷ realm ∷ []) host query h =
      elim (Result-cases (authenticate w flags r realm)) [
        | inl (a, authenticated) ↦
            (whole, realm, refl, authenticate-account w flags r realm a authenticated)
        | inr (a, refused) ↦
            let h' : a ≡ redirect host query = rw refused at h in
            let f : IsForbidden a = rw refused at (authenticate-Refuses r realm) in
            absurd (rw h' at f)
      ]

  with_header-redirect :
      (r : Response) (headers : List Text) (host query : Text)
      → with_header w flags r headers ≡ redirect host query
      → (header : Text) × (headers ≡ header ∷ [])
        × (with_realm w flags r (w.find_realm header) ≡ redirect host query)
  with_header-redirect r [] host query h = absurd (ground arith)
  with_header-redirect r (x ∷ y ∷ ys) host query h = absurd (ground arith)
  with_header-redirect r (header ∷ []) host query h = (header, refl, h)

  -- A token leaves the proxy only if the server asked for it with status 401 and one header of the
  -- scheme whose realm is the account of the caller.
  pub on_response-Authorised :
      (r : Response) (host query : Text)
      → on_response w flags (some r) ≡ redirect host query
      → Authorised w r
  unfolding on_response
  on_response-Authorised r host query h = elim (Bool-cases (r.status_code == 401)) [
    | inr other ↦
        let h' : unchanged ≡ redirect host query = rw (other, on_response) at h in
        absurd (ground arith)
    | inl same ↦
        let h1 : with_header w flags r r.www_authenticate ≡ redirect host query =
          rw (same, on_response) at h in
        let (header, only, h2) = with_header-redirect r r.www_authenticate host query h1 in
        let (whole, realm, found, account) =
          with_realm-redirect r (w.find_realm header) host query h2 in
        record {
          unauthorised = (==_iff r.status_code 401).0 same;
          header = header;
          only_header = only;
          whole = whole;
          realm = realm;
          has_realm = found;
          same_account = account;
        }
  ]
