-- ===== src/Dump/Sessions.antt =====
-- aws/dump/resources/aws.go: OpenSessions. `identify` is the account that GetCallerIdentity names in
-- the session that common.OpenSession opens with the role of an account in a region.
use awstools.Prelude.{◌≡◌, refl, List, [], ◌∷◌, Result, ok, ◌>>=◌, >>=-eq-ok, ok-injective}
use awstools.Prelude.Text.{Text}
use awstools.Dump.Jobs.{Account, Session}

-- NewAccountsFromFile
unfoldable pub new_accounts_from_file :
    (Text → Result Text Text)
    → (Text → Result Text (List Account))
    → Text
    → Result Text (List Account)
new_accounts_from_file read_file decode filename = read_file filename >>= decode

module _ (identify : Account → Text → Result Text Text) where
  -- The loop over the regions of an account.
  unfoldable pub open_regions : Account → List Text → Result Text (List Session)
  open_regions account [] = ok []
  open_regions account (region ∷ regions) = do
    account_id ← identify account region
    sessions ← open_regions account regions
    ok (record { account_id = account_id; region = region } ∷ sessions)

  -- OpenSessions: the accounts that it leaves, or its error.
  unfoldable pub open_sessions : List Account → Result Text (List Account)
  unfolding open_regions
  open_sessions [] = ok []
  open_sessions (account ∷ accounts) = do
    sessions ← open_regions account account.regions
    rest ← open_sessions accounts
    ok (record account { sessions = sessions } ∷ rest)

  -- The sessions stand for the regions, in order, each with the account that was named there.
  abbrev pub AreSessionsOf : Account → List Text → List Session → Type 0
  AreSessionsOf account [] [] = Unit
  AreSessionsOf account [] (s ∷ sessions) = ⊥
  AreSessionsOf account (region ∷ regions) [] = ⊥
  AreSessionsOf account (region ∷ regions) (s ∷ sessions) =
      (s.region ≡ region)
      × (identify account region ≡ ok s.account_id)
      × AreSessionsOf account regions sessions

  -- The account with the sessions of its regions, and nothing else changed.
  abbrev pub AllOpened : List Account → List Account → Type 0
  AllOpened [] [] = Unit
  AllOpened [] (b ∷ opened) = ⊥
  AllOpened (a ∷ accounts) [] = ⊥
  AllOpened (a ∷ accounts) (b ∷ opened) =
      (b ≡ record a { sessions = b.sessions })
      × AreSessionsOf a a.regions b.sessions
      × AllOpened accounts opened

  open_regions-AreSessionsOf :
      (account : Account) (regions : List Text) (sessions : List Session)
      → open_regions account regions ≡ ok sessions
      → AreSessionsOf account regions sessions
  unfolding open_regions
  open_regions-AreSessionsOf account [] sessions e = rw (← ok-injective e) tt
  open_regions-AreSessionsOf account (region ∷ regions) sessions e =
      let (account_id, named, e1) = >>=-eq-ok (identify account region) _ e in
      let (rest, later, e2) = >>=-eq-ok (open_regions account regions) _ e1 in
      rw (← ok-injective e2) (refl, named, open_regions-AreSessionsOf account regions rest later)

  -- OpenSessions leaves each account with one session for each of its regions, in order, that has
  -- the account id named there, and changes nothing else of it.
  open_sessions-AllOpened :
      (accounts opened : List Account)
      → open_sessions accounts ≡ ok opened
      → AllOpened accounts opened
  unfolding open_sessions
  open_sessions-AllOpened [] opened e = rw (← ok-injective e) tt
  open_sessions-AllOpened (account ∷ accounts) opened e =
      let (sessions, here, e1) = >>=-eq-ok (open_regions account account.regions) _ e in
      let (rest, later, e2) = >>=-eq-ok (open_sessions accounts) _ e1 in
      rw (← ok-injective e2) (
        refl,
        open_regions-AreSessionsOf account account.regions sessions here,
        open_sessions-AllOpened accounts rest later,
      )
