-- ===== src/SyncUsers/Sudo.antt =====
-- What a run of syncUserSudo leaves in the sudoers directory.
use awstools.Prelude.{
  ◌≡◌, ◌≢◌, refl, arith, Bool, true, false, ◌||◌, Option, none, some, List, ok, ◌⊎◌, inl, inr,
  Option-cases, ok-injective,
}
use awstools.Common.Entries.{find_entry, find-put, find-put_other, find-remove, find-remove_other}
use awstools.Prelude.Text.{Text}
use awstools.SyncUsers.{
  IamUser, without_dots, sudo_filename, sudo_line, write_file, remove_file, change_sudo,
  sync_user_sudo,
}

-- The file exists exactly if it is wanted, and all other files are as before.
abbrev pub IsSynced : Bool → Text → List (Text × Text) → List (Text × Text) → Type 0
IsSynced wanted filename files files' =
    (((wanted ≡ true) × (find_entry filename files' ≢ none))
      ⊎ ((wanted ≡ false) × (find_entry filename files' ≡ none)))
    × ((other : Text) → filename ≢ other → find_entry other files' ≡ find_entry other files)

some_ne_none {ℓ} : {A : Type ℓ} {a : A} {o : Option A} → o ≡ some a → o ≢ none
some_ne_none e h = ground arith

write_file-IsSynced :
    (file_error : Text → Option Text) (filename line : Text) (files files' : List (Text × Text))
    → write_file file_error filename line files ≡ ok files'
    → IsSynced true filename files files'
unfolding write_file
write_file-IsSynced file_error filename line files files' e =
    elim (Option-cases (file_error filename)) [
      | inl fine ↦
          let same = ok-injective (rw (fine, write_file) at e) in
          rw (← same) (
            inl (refl, some_ne_none (find-put filename line files)),
            λ other h. find-put_other other filename line files h,
          )
      | inr (x, failed) ↦ absurd (ground arith)
    ]

remove_file-IsSynced :
    (file_error : Text → Option Text) (filename : Text) (files files' : List (Text × Text))
    → remove_file file_error filename files ≡ ok files'
    → IsSynced false filename files files'
unfolding remove_file
remove_file-IsSynced file_error filename files files' e =
    elim (Option-cases (file_error filename)) [
      | inl fine ↦
          let same = ok-injective (rw (fine, remove_file) at e) in
          rw (← same) (
            inr (refl, find-remove filename files),
            λ other h. find-remove_other other filename files h,
          )
      | inr (x, failed) ↦ absurd (ground arith)
    ]

change_sudo-IsSynced :
    (file_error : Text → Option Text) (filename line : Text) (wanted : Bool) (found : Option Text)
    (files files' : List (Text × Text))
    → find_entry filename files ≡ found
    → change_sudo file_error filename line wanted found files ≡ ok files'
    → IsSynced wanted filename files files'
unfolding change_sudo
change_sudo-IsSynced file_error filename line true (some content) files files' f e =
    rw (← ok-injective e) (inl (refl, some_ne_none f), λ other h. refl)
change_sudo-IsSynced file_error filename line true none files files' f e =
    write_file-IsSynced file_error filename line files files' e
change_sudo-IsSynced file_error filename line false (some content) files files' f e =
    remove_file-IsSynced file_error filename files files' e
change_sudo-IsSynced file_error filename line false none files files' f e =
    rw (← ok-injective e) (inr (refl, f), λ other h. refl)

-- After a run of syncUserSudo that succeeds the user's file exists exactly if the user or the
-- default asks for sudo, and all other files are as before.
pub sync_user_sudo-IsSynced :
    (file_error : Text → Option Text) (default_sudo : Bool) (user : IamUser)
    (files files' : List (Text × Text))
    → sync_user_sudo file_error default_sudo user files ≡ ok files'
    → IsSynced (user.sudo || default_sudo) (sudo_filename user.username) files files'
unfolding sync_user_sudo
sync_user_sudo-IsSynced file_error default_sudo user files files' e =
    change_sudo-IsSynced file_error (sudo_filename user.username) (sudo_line user.username)
      (user.sudo || default_sudo) _ files files' refl e

-- Two users whose names differ in dots alone share a file: without sudo by default, if both runs of
-- syncUserSudo succeed and the later user is not to have sudo, the earlier one, who is, has a file
-- after the first run and none after the second.
pub sync_user_sudo_shared :
    (file_error : Text → Option Text) (first second : IamUser)
    (files files1 files2 : List (Text × Text))
    → without_dots first.username ≡ without_dots second.username
    → first.sudo ≡ true
    → second.sudo ≡ false
    → sync_user_sudo file_error false first files ≡ ok files1
    → sync_user_sudo file_error false second files1 ≡ ok files2
    → (find_entry (sudo_filename first.username) files1 ≢ none)
      × (find_entry (sudo_filename first.username) files2 ≡ none)
unfolding sudo_filename
sync_user_sudo_shared file_error first second files files1 files2 shared asks lacks e1 e2 =
    let s1 = sync_user_sudo-IsSynced file_error false first files files1 e1 in
    let s2 = sync_user_sudo-IsSynced file_error false second files1 files2 e2 in
    (wanted (first.sudo || false) (ground arith) s1.0, rw shared (unwanted _ (ground arith) s2.0))
  where
    wanted : {P Q : Type 0} (b : Bool) → b ≡ true → ((b ≡ true) × P) ⊎ ((b ≡ false) × Q) → P
    wanted b h (inl (_, p)) = p
    wanted b h (inr (lacks, _)) = absurd (ground arith)

    unwanted : {P Q : Type 0} (b : Bool) → b ≡ false → ((b ≡ true) × P) ⊎ ((b ≡ false) × Q) → Q
    unwanted b h (inl (asks, _)) = absurd (ground arith)
    unwanted b h (inr (_, q)) = q
