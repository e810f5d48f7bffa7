-- ===== src/SyncUsers.antt =====
-- iam/sync-users/main.go: the users of an IAM group, their sudoers files, and the local users to
-- lock. The IAM service, strconv.Atoi, sort.Strings and the commands that are run are parameters.
pub mod Host
pub mod Sudo
pub mod Locking
use awstools.Prelude.{
  ℕ, Bool, true, false, ◌&&◌, ◌||◌, not, Option, none, some, List, [], ◌∷◌, ◌++◌, Result, ok, err,
  ◌>>=◌, if◌then◌else◌, any, ◌==◌,
}
use awstools.Common.Entries.{find_entry, put_entry, remove_entry}
use awstools.Prelude.Int.{ℤ, ltb_ℤ}
use awstools.Prelude.Text.{Text, codes, eq_text, is_empty, split}

pub record IamUser : Type 0 where
  pub username : Text
  pub groups : List Text
  pub sudo : Bool

-- What the code reads of an iam.Tag.
pub record Tag : Type 0 where
  pub key : Text
  pub value : Text

unfoldable pub has_name : Text → List Text → Bool
has_name name names = any (λ n. eq_text n name) names

-- The loop over the names of a tag: no empty name, and none that was seen.
unfoldable pub unique_groups : List Text → List Text → List Text
unfolding has_name
unique_groups seen [] = []
unique_groups seen (g ∷ group_names) =
    let skipped = unique_groups seen group_names in
    let kept = g ∷ unique_groups (g ∷ seen) group_names in
    if is_empty g then skipped else if has_name g seen then skipped else kept

-- The loop over the tags of a user.
unfoldable pub apply_tags : (List Text → List Text) → Text → List Tag → IamUser → IamUser
unfolding unique_groups
apply_tags sort iam_tags_prefix [] result = result
apply_tags sort iam_tags_prefix (tag ∷ tags) result = apply_tags sort iam_tags_prefix tags (
    if eq_text tag.key (iam_tags_prefix ++ codes ":groups")
    then record result { groups = sort (result.groups ++ unique_groups [] (split b' ' tag.value)) }
    else if eq_text tag.key (iam_tags_prefix ++ codes ":sudo")
    then record result { sudo = eq_text tag.value (codes "true") }
    else result)

-- What a goroutine of getUsersForGroup sends for a name, or nil.
unfoldable pub user_of_name :
    (List Text → List Text) → (Text → Result Text (List Tag)) → Text → Text → Option IamUser
unfolding apply_tags
user_of_name sort list_user_tags iam_tags_prefix username = elim (list_user_tags username) [
  | err e ↦ none
  | ok tags ↦ some (
      apply_tags sort iam_tags_prefix tags
        (record { username = username; groups = []; sudo = false }))
]

-- The loop over the results, in the order in which they arrive.
unfoldable pub collect_users : List (Option IamUser) → Result Text (List IamUser)
collect_users [] = ok []
collect_users (none ∷ results) = err (codes "failed to list tags for user")
collect_users (some user ∷ results) = do output ← collect_users results; ok (user ∷ output)

-- strings.Replace(s, ".", "", -1)
unfoldable pub without_dots : Text → Text
without_dots [] = []
without_dots (c ∷ s) = let rest = without_dots s in if c == b'.' then rest else c ∷ rest

unfoldable pub sudo_filename : Text → Text
unfolding without_dots
sudo_filename username = codes "/etc/sudoers.d/" ++ without_dots username

unfoldable pub sudo_line : Text → Text
sudo_line username = username ++ (codes " ALL=(ALL) NOPASSWD:ALL" ++ (b'\n' ∷ []))

-- ioutil.WriteFile and os.Remove, on the files of the host with their contents; they may fail.
unfoldable pub write_file :
    (Text → Option Text) → Text → Text → List (Text × Text) → Result Text (List (Text × Text))
write_file file_error filename content files = elim (file_error filename) [
  | some e ↦ err e
  | none ↦ ok (put_entry filename content files)
]

unfoldable pub remove_file :
    (Text → Option Text) → Text → List (Text × Text) → Result Text (List (Text × Text))
remove_file file_error filename files = elim (file_error filename) [
  | some e ↦ err e
  | none ↦ ok (remove_entry filename files)
]

-- The four cases of syncUserSudo: whether sudo is wanted, and the file if there is one.
unfoldable pub change_sudo :
    (Text → Option Text)
    → Text
    → Text
    → Bool
    → Option Text
    → List (Text × Text)
    → Result Text (List (Text × Text))
unfolding write_file remove_file
change_sudo file_error filename line true (some content) files = ok files
change_sudo file_error filename line true none files = write_file file_error filename line files
change_sudo file_error filename line false (some content) files =
    remove_file file_error filename files
change_sudo file_error filename line false none files = ok files

-- syncUserSudo
unfoldable pub sync_user_sudo :
    (Text → Option Text) → Bool → IamUser → List (Text × Text) → Result Text (List (Text × Text))
unfolding sudo_filename sudo_line change_sudo
sync_user_sudo file_error default_sudo user files =
    change_sudo file_error (sudo_filename user.username) (sudo_line user.username)
      (user.sudo || default_sudo) (find_entry (sudo_filename user.username) files) files

-- The fields of user.User that LocalUsers fills.
pub record LocalUser : Type 0 where
  pub username : Text
  pub uid : Text
  pub gid : Text

-- The conditions of the loop over the local users, for one that is not in IAM.
abbrev pub keeps_local : ℤ → List Text → Text → ℤ → Bool
keeps_local minimal_uid ignored username uid = ltb_ℤ uid minimal_uid || has_name username ignored

-- The loop that locks the local users: the names that are locked, in order.
unfoldable pub lock_missing :
    (Text → Result Text ℤ)
    → (Text → Option Text)
    → ℤ
    → List Text
    → List Text
    → List LocalUser
    → Result Text (List Text)
lock_missing atoi lock_error minimal_uid iam_users ignored [] = ok []
lock_missing atoi lock_error minimal_uid iam_users ignored (user ∷ local_users) =
    let rest = lock_missing atoi lock_error minimal_uid iam_users ignored local_users in
    if has_name user.username iam_users
    then rest
    else (atoi user.uid >>= λ uid.
        if keeps_local minimal_uid ignored user.username uid
        then rest
        else elim (lock_error user.username) [
          | some e ↦ err e
          | none ↦ rest >>= λ locked. ok (user.username ∷ locked)
        ])
