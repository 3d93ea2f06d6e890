-- ===== src/Daemon.antt =====
-- src/daemon/entrance.c: the user under which the daemon starts its greeters, with the greeter's home
-- directory, and the lock of the automatic login.
pub mod Greeters
pub mod Home
pub mod Log
pub mod Main
pub mod Stopped
pub mod Guards
use entrance.Common.{
  ℕ, zero, suc, Bool, true, false, not, ◌||◌, List, [], ◌∷◌, Option, none, some, Str, codes, str_eq,
  if◌then◌else◌, is_empty,
}

-- The fields of `struct passwd` that are read.
pub record Passwd : Type 0 where
  pub uid : ℕ
  pub gid : ℕ
  pub dir : Option Str

-- What stands at the path of the client's own directory.
pub data FileKind : Type 0 where
  missing directory other_file : FileKind

-- `_entrance_user`, `_entrance_uid`, `_entrance_gid`, `_entrance_home_path`; the client's directory; and
-- the calls of `entrance_chown`, the newest first. Whether a chown fails is only logged.
pub record Users : Type 0 where
  pub user : Option Str
  pub uid : ℕ
  pub gid : ℕ
  pub home_path : Option Str
  pub client_home : FileKind
  pub chowned : List (Str × (ℕ × ℕ))

-- The configured user; the password database, where none is a name that it does not have or an error;
-- `dirname`; and whether the client's directory can be made, or a file in its place removed.
pub record UserSystem : Type 0 where
  pub start_user : Option Str
  pub getpwnam : Str → Option Passwd
  pub dirname : Str → Str
  pub client_home_path : Str
  pub can_mkdir : Bool
  pub can_remove : Bool

unfoldable pub chown : Str → ℕ → ℕ → Users → Users
chown path uid gid s = record s { chowned = (path, (uid, gid)) ∷ s.chowned }

abbrev pub nobody_name : Str
nobody_name = codes "nobody"

-- `ecore_file_mkdir` and `ecore_file_remove` on the client's directory.
abbrev pub made : Bool → FileKind → FileKind
made true missing = directory
made true kind = kind
made false kind = kind

abbrev pub removed : Bool → FileKind → FileKind
removed true kind = missing
removed false kind = kind

-- A home directory that is none.
unfoldable pub no_home : Option Str → Bool
unfolding str_eq
no_home none = true
no_home (some dir) = str_eq dir (codes "/") || str_eq dir (codes "/nonexistent")

abbrev pub known_as : Str → Option Passwd → Option (Str × Passwd)
known_as name none = none
known_as name (some pwd) = some (name, pwd)

abbrev pub or_else : Option (Str × Passwd) → Option (Str × Passwd) → Option (Str × Passwd)
or_else none other = other
or_else (some found) other = some found

module _ (sys : UserSystem) where
  abbrev pub start_entry : Option Str → Option (Str × Passwd)
  start_entry none = none
  start_entry (some name) = if is_empty (some name) then none else known_as name (sys.getpwnam name)

  -- The name and the entry that are taken: the start user's, or nobody's.
  unfoldable pub chosen_user : Option (Str × Passwd)
  chosen_user =
      or_else (start_entry sys.start_user) (known_as nobody_name (sys.getpwnam nobody_name))

  abbrev pub own_home : Users → Users
  own_home s =
      chown sys.client_home_path s.uid s.gid
        (record s { client_home = made sys.can_mkdir s.client_home })

  abbrev pub make_by_kind : FileKind → Users → Users
  make_by_kind missing s = own_home s
  make_by_kind directory s = s
  make_by_kind other_file s =
      own_home (record s { client_home = removed sys.can_remove s.client_home })

  -- The client's own directory, for a user without a home.
  unfoldable pub make_client_home : Users → Users
  unfolding chown
  make_client_home s = make_by_kind s.client_home s

  abbrev pub choose_home : Option Str → Users → Users
  choose_home none s = record (make_client_home s) { home_path = some sys.client_home_path }
  choose_home (some dir) s =
      if no_home (some dir)
      then record (make_client_home s) { home_path = some sys.client_home_path }
      else record s { home_path = some dir }

  abbrev pub chown_parent : Users → Users
  chown_parent s = elim s.home_path [
    | none ↦ s
    | some home ↦ chown (sys.dirname home) s.uid s.gid s
  ]

  -- The free of the name of the parent directory is left out.
  unfoldable pub with_user : Str × Passwd → Users → Users
  unfolding make_client_home no_home chown
  with_user (name, pwd) s =
      chown_parent
        (choose_home pwd.dir (record s { user = some name; gid = pwd.gid; uid = pwd.uid }))

  unfoldable pub entrance_uid_gid_init : Users → Users
  unfolding chosen_user with_user
  entrance_uid_gid_init s = elim chosen_user [ none ↦ s | some found ↦ with_user found s ]

-- The lock of the automatic login: whether its file is there, and `_entrance_auto_login`.
pub record AutoLogin : Type 0 where
  pub file : Bool
  pub enabled : Bool

unfoldable pub entrance_autologin_lock_set : Bool → AutoLogin → AutoLogin
entrance_autologin_lock_set true s = record s { file = true }
entrance_autologin_lock_set false s = record s { enabled = false }

unfoldable pub entrance_autologin_lock_get : AutoLogin → Bool
entrance_autologin_lock_get s = s.file

unfoldable pub entrance_autologin_lock_del : Bool → AutoLogin → AutoLogin
entrance_autologin_lock_del removed s = if removed then record s { file = false } else s
