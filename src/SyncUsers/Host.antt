-- ===== src/SyncUsers/Host.antt =====
-- The files /etc/login.defs and /etc/passwd, and the commands, of iam/sync-users/main.go. The lines are
-- those of a file that could be read to its end; strings.Fields and strconv.Atoi are parameters.
use awstools.Prelude.{
  Option, none, some, List, [], ◌∷◌, ◌||◌, Result, ok, err, ◌>>=◌, if◌then◌else◌,
}
use awstools.Prelude.Int.{ℤ}
use awstools.Prelude.Text.{Text, codes, eq_text, is_empty, split, join, has_prefix}
use awstools.Common.Config.Refresh.{last}
use awstools.SyncUsers.{LocalUser, IamUser}

-- What can go wrong beside an error of a call: the panic of an index.
pub data HostError : Type 0 where
  failed : Text → HostError
  index_out_of_range : HostError

-- A line of /etc/login.defs, by its parts: the number if it is that of UID_MIN.
unfoldable pub uid_line : List Text → Result HostError (Option Text)
unfolding last
uid_line [] = err index_out_of_range
uid_line (p ∷ parts) = ok (if eq_text p (codes "UID_MIN") then some (last p parts) else none)

-- FindMinimalUID
unfoldable pub find_minimal_uid :
    (Text → List Text) → (Text → Result Text ℤ) → List Text → Result HostError ℤ
unfolding uid_line
find_minimal_uid fields atoi [] = err (failed (codes "could not find UID_MIN"))
find_minimal_uid fields atoi (line ∷ lines) =
    let rest = find_minimal_uid fields atoi lines in
    if is_empty line || has_prefix line (codes "#") then rest else elim (uid_line (fields line)) [
      | err e ↦ err e
      | ok none ↦ rest
      | ok (some number) ↦ elim (atoi number) [ err e ↦ err (failed e) | ok n ↦ ok n ]
    ]

-- The parts of a line of /etc/passwd.
unfoldable pub local_user : List Text → Result HostError LocalUser
local_user (name ∷ password ∷ number ∷ group ∷ parts) =
    ok (record { username = name; uid = number; gid = group })
local_user _ = err index_out_of_range

-- LocalUsers
unfoldable pub local_users : List Text → Result HostError (List LocalUser)
unfolding local_user
local_users [] = ok []
local_users (line ∷ lines) = do
  user ← local_user (split b':' line)
  users ← local_users lines
  ok (user ∷ users)

-- The path of a command, and its arguments.
pub record Command : Type 0 where
  pub path : Text
  pub args : List Text

abbrev pub command : Text → List Text → Command
command path args = record { path = path; args = args }

-- The commands in order, until one fails: those that were run, and the error.
unfoldable pub run_commands : (Command → Option Text) → List Command → List Command × Option Text
run_commands run_command [] = ([], none)
run_commands run_command (c ∷ commands) =
    let rest = run_commands run_command commands in
    elim (run_command c) [ some e ↦ (c ∷ [], some e) | none ↦ (c ∷ rest.0, rest.1) ]

-- The commands of LockLocalUser, UnlockLocalUser, syncUserGroups and createUser.
unfoldable pub lock_local_user : Text → List Command
lock_local_user username =
    command (codes "/usr/sbin/usermod") (codes "-L" ∷ username ∷ [])
    ∷ command (codes "/usr/bin/chage") (codes "-E" ∷ codes "-l" ∷ username ∷ [])
    ∷ []

unfoldable pub unlock_local_user : Text → List Command
unlock_local_user username =
    command (codes "/usr/sbin/usermod") (codes "-U" ∷ username ∷ [])
    ∷ command (codes "/usr/bin/chage") (codes "-E" ∷ codes "-1" ∷ username ∷ [])
    ∷ []

unfoldable pub sync_user_groups : IamUser → List Command
sync_user_groups user =
    command (codes "/usr/sbin/usermod")
      (codes "-G" ∷ join (codes ",") user.groups ∷ user.username ∷ [])
    ∷ []

unfoldable pub create_user : IamUser → List Command
create_user user =
    command (codes "/usr/sbin/adduser") (user.username ∷ [])
    ∷ command (codes "/usr/sbin/usermod") (user.username ∷ codes "-p" ∷ codes "'!'" ∷ [])
    ∷ []
