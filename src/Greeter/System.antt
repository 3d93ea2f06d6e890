-- ===== src/Greeter/System.antt =====
-- src/bin/entrance_system.c: the host's name, the distribution's name and the path of its logo, which are
-- found out once.
pub mod Logo
use entrance.Common.{
  ℕ, zero, suc, Bool, true, false, not, ◌&&◌, ◌||◌, ◌==◌, List, [], ◌∷◌, ◌++◌, Option, none, some,
  Str, codes, truncate, M, ◌>>=◌, ◌>>◌, ret, get, modify, if◌then◌else◌, str_eq, contains,
  starts_with,
}

-- What the functions ask of the system: the lines of the two files, when they can be opened, the fields
-- that `sscanf` finds in a line, the host's name, and which files there are.
pub record Machine : Type 0 where
  pub etc_os_release : Option (List Str)
  pub usr_os_release : Option (List Str)
  pub sscanf : Str → Option (Str × Str)
  pub gethostname : Option Str
  pub file_exists : Str → Bool

pub record SystemInfo : Type 0 where
  pub hostname : Option Str
  pub distro : Option Str
  pub logo_path : Option Str

-- A quote at the start and one at the end are dropped.
abbrev without_first_quote : Str → Str
without_first_quote [] = []
without_first_quote (c ∷ s) = if c == b'"' then s else c ∷ s

unfoldable pub without_last_quote : Str → Str
without_last_quote [] = []
without_last_quote (c ∷ []) = if c == b'"' then [] else c ∷ []
without_last_quote (c ∷ d ∷ s) = c ∷ without_last_quote (d ∷ s)

-- The value of the first line with the key.
unfoldable pub release_name : Machine → List Str → Option Str
unfolding without_last_quote str_eq
release_name m [] = none
release_name m (line ∷ lines) =
    let rest = release_name m lines in
    elim (m.sscanf line) [
      | none ↦ rest
      | some (key, value) ↦
          if str_eq key (codes "NAME")
          then some (without_last_quote (without_first_quote value))
          else rest
    ]

-- Line breaks among the first `len` characters become spaces.
unfoldable pub sanitize : ℕ → Str → Str
sanitize zero name = name
sanitize (suc len) [] = []
sanitize (suc len) (c ∷ name) = (if (c == 10) || (c == 13) then b' ' else c) ∷ sanitize len name

abbrev pub or_linux : Option Str → Str
or_linux none = codes "Linux"
or_linux (some name) = sanitize 4095 name

unfoldable pub system_distro_detect : Machine → Str
unfolding release_name sanitize
system_distro_detect m = elim m.etc_os_release [
  | some lines ↦ or_linux (release_name m lines)
  | none ↦ elim m.usr_os_release [
    | some lines ↦ or_linux (release_name m lines)
    | none ↦ codes "Linux"
  ]
]

abbrev pub logo_dirs : List Str
logo_dirs =
    codes "/usr/share/icons/gentoo/64x64/"
    ∷ codes "/usr/share/icons/gentoo/48x48/"
    ∷ codes "/usr/share/icons/hicolor/128x128/apps/"
    ∷ codes "/usr/share/icons/hicolor/64x64/apps/"
    ∷ codes "/usr/share/icons/Papirus/64x64/apps/"
    ∷ codes "/usr/share/icons/Papirus/48x48/apps/"
    ∷ codes "/usr/share/icons/Vertex/places/symbolic/"
    ∷ codes "/usr/share/pixmaps/"
    ∷ []

abbrev pub logo_exts : List Str
logo_exts = codes ".svg" ∷ codes ".png" ∷ [] ∷ []

unfoldable pub icon_name : Str → Str
unfolding contains starts_with
icon_name distro =
    if contains (codes "Arch") distro
    then codes "archlinux"
    else if contains (codes "Debian") distro
    then codes "debian-logo"
    else if contains (codes "Fedora") distro
    then codes "fedora"
    else if contains (codes "Gentoo") distro
    then codes "gentoo"
    else if contains (codes "openSUSE") distro
    then codes "opensuse"
    else if contains (codes "Ubuntu") distro
    then codes "ubuntu-logo"
    else codes "distributor-logo"

-- The inner and the outer loop.
unfoldable pub search_exts : Machine → Str → Str → List Str → Option Str
search_exts m dir icon [] = none
search_exts m dir icon (ext ∷ exts) =
    let path = truncate 512 (dir ++ icon ++ ext) in
    let rest = search_exts m dir icon exts in if m.file_exists path then some path else rest

unfoldable pub search_paths : Machine → Str → List Str → Option Str
unfolding search_exts
search_paths m icon [] = none
search_paths m icon (dir ∷ dirs) =
    let rest = search_paths m icon dirs in
    elim (search_exts m dir icon logo_exts) [ some path ↦ some path | none ↦ rest ]

unfoldable pub system_logo_detect : Machine → Option Str → Option Str
unfolding search_paths icon_name
system_logo_detect m none = none
system_logo_detect m (some distro) = search_paths m (icon_name distro) logo_dirs

-- The host's name up to its first dot.
unfoldable pub until_dot : Str → Str
until_dot [] = []
until_dot (c ∷ s) = let rest = until_dot s in if c == b'.' then [] else c ∷ rest

abbrev pub short_name : Option Str → Str
short_name none = codes "localhost"
short_name (some hostname) = until_dot hostname

unfoldable pub system_init : Machine → M SystemInfo (Unit {0})
unfolding system_distro_detect system_logo_detect until_dot
system_init m = do
  modify (λ s. record s { hostname = some (short_name m.gethostname) })
  modify (λ s. record s { distro = some (system_distro_detect m) })
  modify (λ s. record s { logo_path = system_logo_detect m s.distro })

system_once : Machine → Option Str → M SystemInfo (Unit {0})
unfolding system_init
system_once m none = system_init m
system_once m (some distro) = ret tt

unfoldable pub entrance_system_distro_get : Machine → M SystemInfo (Option Str)
unfolding system_once
entrance_system_distro_get m = do s ← get; system_once m s.distro; t ← get; ret t.distro

unfoldable pub entrance_system_logo_get : Machine → M SystemInfo (Option Str)
unfolding system_once
entrance_system_logo_get m = do s ← get; system_once m s.distro; t ← get; ret t.logo_path
