-- ===== src/Image.antt =====
-- src/daemon/entrance_image.c: the pools of icons and backgrounds of the system and of a user. The
-- file system, the password database and the image loader are parameters.
pub mod Pools
use entrance.Common.{
  ℕ, Bool, true, false, not, ◌&&◌, List, [], ◌∷◌, ◌++◌, Option, none, some, Str, codes, truncate,
  get_elem?, ◌==◌,
}

pub record Image : Type 0 where
  pub group : Option Str
  pub path : Option Str

-- An entry of a directory: its path, where its name starts in it, and whether it is a regular file.
pub record FileInfo : Type 0 where
  pub path : Str
  pub name_start : ℕ
  pub is_regular : Bool

pub record Passwd : Type 0 where
  pub pw_name : Str
  pub pw_uid : ℕ
  pub pw_gid : ℕ
  pub pw_dir : Str
  pub pw_shell : Str

-- `stat_ls` is none when the directory cannot be read; `getpwnam` is none when the user is unknown.
pub record Files : Type 0 where
  pub path_max : ℕ
  pub data_dir : Str
  pub stat_ls : Str → Option (List FileInfo)
  pub can_load : Str → Bool
  pub getpwnam : Str → Option Passwd

-- A name that begins with a dot; a name that is empty does not.
abbrev is_hidden : Option ℕ → Bool
is_hidden none = false
is_hidden (some c) = c == b'.'

module _ (fs : Files) where
  abbrev pub is_target : FileInfo → Bool
  is_target f =
      not (is_hidden (get_elem? f.path f.name_start)) && (f.is_regular && fs.can_load f.path)

  pub targets : List FileInfo → List Str
  targets [] = []
  targets (f ∷ files) =
      let rest = targets files in elim (is_target f) [ true ↦ f.path ∷ rest | false ↦ rest ]

  unfoldable pub entrance_image_readdir : Str → List Str
  unfolding targets
  entrance_image_readdir path = elim (fs.stat_ls path) [ none ↦ [] | some files ↦ targets files ]

  unfoldable pub entrance_image_get : List Str → List Image
  entrance_image_get [] = []
  entrance_image_get (src_str ∷ src) =
      record { group = none; path = some src_str } ∷ entrance_image_get src

  unfoldable pub entrance_image_homedir_get : Option Str → Option Str
  entrance_image_homedir_get none = none
  entrance_image_homedir_get (some usr) = elim (fs.getpwnam usr) [
    | none ↦ none
    | some pw ↦ some pw.pw_dir
  ]

  unfoldable pub entrance_image_system_icons : List Image
  unfolding entrance_image_readdir entrance_image_get
  entrance_image_system_icons =
      entrance_image_get (entrance_image_readdir (fs.data_dir ++ codes "/icons/"))

  unfoldable pub entrance_image_system_backgrounds : List Image
  unfolding entrance_image_readdir entrance_image_get
  entrance_image_system_backgrounds =
      entrance_image_get (entrance_image_readdir (fs.data_dir ++ codes "/backgrounds/"))

  abbrev in_home : Str → Option Str → List Image
  in_home folder none = []
  in_home folder (some homedir) =
      entrance_image_get (entrance_image_readdir (truncate fs.path_max (homedir ++ folder)))

  unfoldable pub entrance_image_user_icons : Option Str → List Image
  unfolding entrance_image_homedir_get
  entrance_image_user_icons username =
      in_home (codes "/.config/entrance/icons/") (entrance_image_homedir_get username)

  unfoldable pub entrance_image_user_backgrounds : Option Str → List Image
  unfolding entrance_image_homedir_get
  entrance_image_user_backgrounds username =
      in_home (codes "/.config/entrance/backgrounds/") (entrance_image_homedir_get username)
