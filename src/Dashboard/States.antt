-- ===== src/Dashboard/States.antt =====
-- The states after updateAccounts.
use mathlib.Core.List.{Memᴰ}
use mathlib.Core.Option.{some-injective}
use awstools.Prelude.{
  ◌≡◌, ◌≢◌, refl, ◌∙◌, arith, Option, none, some, List, [], ◌∷◌, All, inl, inr, ◌⊎◌,
}
use awstools.Common.Entries.{find_entry, find-put, find-put_other}
use awstools.Prelude.Text.{Text}
use awstools.Dashboard.{AccountState, store}

module _ {T : Type 0} where
  -- The name of the account of a result is not the given one, or there is no state.
  abbrev pub IsOfOther : Text → Option (AccountState T) → Type 0
  IsOfOther name none = Unit
  IsOfOther name (some state) = state.account.account_name ≢ name

  -- An account of which no worker sent a state keeps the one that it had.
  store_other :
      (name : Text) (results : List (Option (AccountState T))) (m : List (Text × AccountState T))
      → All (IsOfOther name) results
      → find_entry name (store results m) ≡ find_entry name m
  unfolding store
  store_other name [] m h = refl
  store_other name (none ∷ results) m h = store_other name results m h.1
  store_other name (some state ∷ results) m h =
      store_other name results _ h.1 ∙ find-put_other name state.account.account_name state m h.0

  -- Every result of the named account is the given one.
  abbrev pub AgreesWith : AccountState T → Option (AccountState T) → Type 0
  AgreesWith state r = IsOfOther state.account.account_name r ⊎ (r ≡ some state)

  store_kept :
      (state : AccountState T) (results : List (Option (AccountState T)))
      (m : List (Text × AccountState T))
      → find_entry state.account.account_name m ≡ some state
      → All (AgreesWith state) results
      → find_entry state.account.account_name (store results m) ≡ some state
  unfolding store
  store_kept state [] m found h = found
  store_kept state (none ∷ results) m found h = store_kept state results m found h.1
  store_kept state (some r ∷ results) m found (inl other, h) =
      store_kept state results _
        (find-put_other state.account.account_name r.account.account_name r m other ∙ found) h
  store_kept state (some r ∷ results) m found (inr same, h) =
      let e = some-injective _ _ same in
      store_kept state results _ (rw e (find-put state.account.account_name state m)) h

  -- After updateAccounts the state of an account is the one that its worker sent, whatever the
  -- order of the results, if no other state has the same account name.
  store_found :
      (state : AccountState T) (results : List (Option (AccountState T)))
      (m : List (Text × AccountState T))
      → Memᴰ (some state) results
      → All (AgreesWith state) results
      → find_entry state.account.account_name (store results m) ≡ some state
  unfolding store
  store_found state [] m i h = elim i [ ]
  store_found state (none ∷ results) m (Memᴰ.head p) h = ground arith
  store_found state (some r ∷ results) m (Memᴰ.head p) h =
      store_kept state results _
        (rw (← some-injective _ _ p) (find-put state.account.account_name state m)) h.1
  store_found state (none ∷ results) m (Memᴰ.tail i) h = store_found state results m i h.1
  store_found state (some r ∷ results) m (Memᴰ.tail i) h = store_found state results _ i h.1
