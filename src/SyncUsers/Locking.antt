-- ===== src/SyncUsers/Locking.antt =====
-- Which local users are locked.
use awstools.Prelude.{◌≡◌, refl, arith, ◌||◌, none, List, [], ◌∷◌, ok, if◌then◌else◌}
use awstools.Prelude.Text.{Text}
use awstools.Prelude.Int.{ℤ, ltb_ℤ}
use awstools.SyncUsers.{LocalUser, has_name, lock_missing}

-- The local users that are to be locked, where the numbers of all that are not in IAM can be read.
abbrev pub to_lock : (Text → ℤ) → ℤ → List Text → List Text → List LocalUser → List Text
to_lock uid_of minimal_uid iam_users ignored [] = []
to_lock uid_of minimal_uid iam_users ignored (user ∷ users) =
    if has_name user.username iam_users
      || (ltb_ℤ (uid_of user.uid) minimal_uid || has_name user.username ignored)
    then to_lock uid_of minimal_uid iam_users ignored users
    else user.username ∷ to_lock uid_of minimal_uid iam_users ignored users

-- If every number is read and every command succeeds, exactly those local users are locked, in
-- order, that are not in IAM, that are no system users by their number, and that are not ignored.
pub lock_missing-to_lock :
    (uid_of : Text → ℤ) (minimal_uid : ℤ) (iam_users ignored : List Text) (users : List LocalUser)
    → lock_missing (λ s. ok (uid_of s)) (λ s. none) minimal_uid iam_users ignored users
      ≡ ok (to_lock uid_of minimal_uid iam_users ignored users)
unfolding lock_missing
lock_missing-to_lock uid_of minimal_uid iam_users ignored [] = refl
lock_missing-to_lock uid_of minimal_uid iam_users ignored (user ∷ users) =
    ground (arith, lock_missing-to_lock uid_of minimal_uid iam_users ignored users)
