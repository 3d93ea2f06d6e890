-- ===== src/Session/Desktops.antt =====
-- src/daemon/entrance_session.c: the list of desktop sessions that is read from the desktop files.
-- Reading a directory and a desktop file, the insertion into a sorted list and `strcasecmp` are
-- parameters.
use entrance.Common.{
  ℕ, Bool, true, false, List, [], ◌∷◌, ◌++◌, Option, none, some, Str, codes, truncate, str_eq,
  contains, if◌then◌else◌, head?, is_empty,
}
use Prim.Native.Nat.{Ordering}

pub record Xsession : Type 0 where
  pub name : Str
  pub command : Option Str
  pub icon : Option Str
  pub is_wayland : Bool

-- What Efreet reads of a desktop file: its name, its icon and its local commands.
pub record Desktop : Type 0 where
  pub name : Option Str
  pub icon : Option Str
  pub commands : List Str

pub record Desktops : Type 0 where
  pub path_max : ℕ
  pub list_dir : Str → Option (List Str)
  pub desktop_get : Str → Option Desktop
  pub strcasecmp : Str → Str → Ordering
  pub sorted_insert : (Xsession → Xsession → Ordering) → List Xsession → Xsession → List Xsession

-- `strcmp` with the names of the list so far: none when it is handed a NULL name.
unfoldable pub has_name : Option Str → List Xsession → Option Bool
has_name name [] = some false
has_name none (x ∷ xs) = none
has_name (some name) (x ∷ xs) =
    let rest = has_name (some name) xs in if str_eq x.name name then some true else rest

module _ (sys : Desktops) where
  abbrev pub entrance_session_sort : Xsession → Xsession → Ordering
  entrance_session_sort a b = sys.strcasecmp a.name b.name

  abbrev pub xsession_of : Str → Str → Str → Option Str → Xsession
  xsession_of path name command icon = record {
    name = name;
    command = some command;
    icon = if is_empty icon then none else icon;
    is_wayland = contains (codes "wayland-sessions") path;
  }

  unfoldable pub add_desktop : List Xsession → Str → Desktop → List Xsession
  add_desktop xsessions path desktop = elim (head? desktop.commands) [
    | none ↦ xsessions
    | some command ↦ elim desktop.name [
      | none ↦ xsessions
      | some name ↦
          sys.sorted_insert entrance_session_sort xsessions
            (xsession_of path name command desktop.icon)
    ]
  ]

  -- none is a fault: a NULL name handed to `strcmp`.
  unfoldable pub scan_file : List Xsession → Str → Option (List Xsession)
  unfolding has_name add_desktop
  scan_file xsessions path = elim (sys.desktop_get path) [
    | none ↦ some xsessions
    | some desktop ↦ elim (has_name desktop.name xsessions) [
      | none ↦ none
      | some known ↦ if known then some xsessions else some (add_desktop xsessions path desktop)
    ]
  ]

  unfoldable pub scan_files : List Xsession → Str → List Str → Option (List Xsession)
  unfolding scan_file
  scan_files xsessions dir [] = some xsessions
  scan_files xsessions dir (filename ∷ files) =
      elim (scan_file xsessions (truncate sys.path_max (dir ++ codes "/" ++ filename))) [
        | none ↦ none
        | some xs ↦ scan_files xs dir files
      ]

  unfoldable pub desktops_scan : List Xsession → Str → Option (List Xsession)
  unfolding scan_files
  desktops_scan xsessions dir = elim (sys.list_dir dir) [
    | none ↦ some xsessions
    | some files ↦ scan_files xsessions dir files
  ]

  unfoldable pub desktops_init : Option (List Xsession)
  unfolding desktops_scan
  desktops_init = elim (desktops_scan [] (codes "/etc/X11/Sessions")) [
    | none ↦ none
    | some xs ↦ elim (desktops_scan xs (codes "/usr/share/xsessions")) [
      | none ↦ none
      | some ys ↦ desktops_scan ys (codes "/usr/share/wayland-sessions")
    ]
  ]
