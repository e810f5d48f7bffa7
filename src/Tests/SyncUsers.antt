-- ===== src/Tests/SyncUsers.antt =====
-- Runs of iam/sync-users at concrete inputs.
use awstools.Prelude.{◌≡◌, ◌≢◌, ◌||◌, refl, true, false, none, some, List, [], ◌∷◌, ok}
use awstools.Prelude.Int.{ℤ, pos}
use awstools.Prelude.Text.{Text, codes, split, has_prefix}
use awstools.Common.Entries.{find_entry, put_entry, remove_entry}
use awstools.SyncUsers.{
  IamUser, Tag, LocalUser, user_of_name, has_name, without_dots, sudo_filename, sudo_line,
  sync_user_sudo, lock_missing,
}
use awstools.SyncUsers.Host.{local_users, find_minimal_uid}
use awstools.SyncUsers.Sudo.{IsSynced, sync_user_sudo-IsSynced, sync_user_sudo_shared}
use awstools.SyncUsers.Locking.{to_lock, lock_missing-to_lock}

abbrev tags : List Tag
tags =
    record { key = codes "p:groups"; value = codes "b a  b" }
    ∷ record { key = codes "p:sudo"; value = codes "true" }
    ∷ []

user_of_tags :
    user_of_name (λ groups. groups) (λ name. ok tags) (codes "p") (codes "bob")
    ≡ some (record { username = codes "bob"; groups = codes "b" ∷ codes "a" ∷ []; sudo = true })
unfolding user_of_name split
user_of_tags = refl

abbrev dotted : IamUser
dotted = record { username = codes "a.b"; groups = []; sudo = true }

abbrev plain : IamUser
plain = record { username = codes "ab"; groups = []; sudo = false }

abbrev with_file : List (Text × Text)
with_file = (sudo_filename (codes "a.b"), sudo_line (codes "a.b")) ∷ []

sync_dotted : sync_user_sudo (λ f. none) false dotted [] ≡ ok with_file
unfolding sync_user_sudo put_entry find_entry
sync_dotted = refl

sync_plain : sync_user_sudo (λ f. none) false plain with_file ≡ ok []
unfolding sync_user_sudo remove_entry find_entry sudo_filename
sync_plain = refl

sync_user_sudo-IsSynced_example :
    IsSynced (dotted.sudo || false) (sudo_filename dotted.username) [] with_file
sync_user_sudo-IsSynced_example =
    sync_user_sudo-IsSynced (λ f. none) false dotted [] with_file sync_dotted

sync_user_sudo_shared_example :
    (find_entry (sudo_filename dotted.username) with_file ≢ none)
    × (find_entry {A = Text} (sudo_filename dotted.username) [] ≡ none)
unfolding without_dots
sync_user_sudo_shared_example =
    sync_user_sudo_shared (λ f. none) dotted plain [] with_file [] refl refl refl sync_dotted
      sync_plain

-- Only `root` has a system user's number.
abbrev uid_of : Text → ℤ
uid_of [] = pos 0
uid_of (c ∷ s) = pos 1000

abbrev host_users : List LocalUser
host_users =
    record { username = codes "root"; uid = []; gid = [] }
    ∷ record { username = codes "bob"; uid = codes "1000"; gid = codes "1000" }
    ∷ record { username = codes "eve"; uid = codes "1000"; gid = codes "1000" }
    ∷ []

lock_eve : to_lock uid_of (pos 1000) (codes "bob" ∷ []) [] host_users ≡ codes "eve" ∷ []
unfolding has_name
lock_eve = refl

lock_missing-to_lock_example :
    lock_missing (λ s. ok (uid_of s)) (λ s. none) (pos 1000) (codes "bob" ∷ []) [] host_users
    ≡ ok (to_lock uid_of (pos 1000) (codes "bob" ∷ []) [] host_users)
lock_missing-to_lock_example =
    lock_missing-to_lock uid_of (pos 1000) (codes "bob" ∷ []) [] host_users

read_passwd :
    local_users (codes "bob:x:1000:100:Bob" ∷ codes "eve:x:1001:100" ∷ [])
    ≡ ok (
        record { username = codes "bob"; uid = codes "1000"; gid = codes "100" }
        ∷ record { username = codes "eve"; uid = codes "1001"; gid = codes "100" }
        ∷ [])
unfolding local_users split
read_passwd = refl

read_login_defs :
    find_minimal_uid
      (split b' ')
      (λ s. ok (pos 1000))
      (codes "# comment" ∷ [] ∷ codes "UID_MAX 60000" ∷ codes "UID_MIN 1000" ∷ [])
    ≡ ok (pos 1000)
unfolding find_minimal_uid split has_prefix
read_login_defs = refl
