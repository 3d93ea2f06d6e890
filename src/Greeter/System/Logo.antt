-- ===== src/Greeter/System/Logo.antt =====
-- What src/bin/entrance_system.c finds out.
use entrance.Greeter.System.{
  Machine, without_last_quote, without_first_quote, SystemInfo, logo_dirs, logo_exts, icon_name,
  search_exts, search_paths, system_logo_detect, system_distro_detect, system_init, system_once,
  entrance_system_distro_get, entrance_system_logo_get, sanitize, or_linux, release_name,
}
use entrance.Common.{
  ℕ, zero, suc, ◌<◌, ◌≡◌, refl, subst, Bool, true, false, not, ◌&&◌, ◌||◌, ◌==◌, List, [], ◌∷◌,
  ◌++◌, Option, none, some, Str, codes, truncate, length, arith, if◌then◌else◌, str_eq,
}

-- The files that the search looks at, in their order.
abbrev pub candidates_in : Str → List Str → Str → List Str
candidates_in dir [] icon = []
candidates_in dir (ext ∷ exts) icon =
    truncate 512 (dir ++ icon ++ ext) ∷ candidates_in dir exts icon

abbrev pub candidates : List Str → Str → List Str
candidates [] icon = []
candidates (dir ∷ dirs) icon = candidates_in dir logo_exts icon ++ candidates dirs icon

-- The first file of a list that is there, or none when none is.
pub data FirstThere (file_exists : Str → Bool) : List Str → Option Str → Type 0 where
  nowhere : FirstThere file_exists [] none
  here : {p : Str} {ps : List Str} → file_exists p ≡ true → FirstThere file_exists (p ∷ ps) (some p)
  later :
      {p : Str} {ps : List Str} {o : Option Str}
      → file_exists p ≡ false
      → FirstThere file_exists ps o
      → FirstThere file_exists (p ∷ ps) o

exts-FirstThere :
    (m : Machine) (dir icon : Str) (exts : List Str)
    → FirstThere m.file_exists (candidates_in dir exts icon) (search_exts m dir icon exts)
unfolding search_exts
exts-FirstThere m dir icon [] = nowhere
exts-FirstThere m dir icon (ext ∷ exts) =
    by_test (m.file_exists (truncate 512 (dir ++ icon ++ ext))) refl (search_exts m dir icon exts)
      (exts-FirstThere m dir icon exts)
  where
    by_test :
        (b : Bool)
        → m.file_exists (truncate 512 (dir ++ icon ++ ext)) ≡ b
        → (o : Option Str) → FirstThere m.file_exists (candidates_in dir exts icon) o
        → FirstThere m.file_exists
            (candidates_in dir (ext ∷ exts) icon)
            (if b then some (truncate 512 (dir ++ icon ++ ext)) else o)
    by_test true e o r = here e
    by_test false e o r = later e r

either : Option Str → Option Str → Option Str
either o r = elim o [ some path ↦ some path | none ↦ r ]

append-FirstThere :
    (f : Str → Bool) (ps qs : List Str) (o r : Option Str)
    → FirstThere f ps o
    → FirstThere f qs r
    → FirstThere f (ps ++ qs) (either o r)
unfolding either
append-FirstThere f _ qs _ r nowhere b = b
append-FirstThere f _ qs _ r (here e) b = here e
append-FirstThere f _ qs o r (later {ps = ps} e a) b = later e (append-FirstThere f ps qs o r a b)

logo_dirs-FirstThere :
    (m : Machine) (icon : Str) (dirs : List Str)
    → FirstThere m.file_exists (candidates dirs icon) (search_paths m icon dirs)
unfolding search_paths either
logo_dirs-FirstThere m icon [] = nowhere
logo_dirs-FirstThere m icon (dir ∷ dirs) =
    append-FirstThere m.file_exists (candidates_in dir logo_exts icon) (candidates dirs icon)
      (search_exts m dir icon logo_exts) (search_paths m icon dirs)
      (exts-FirstThere m dir icon logo_exts) (logo_dirs-FirstThere m icon dirs)

-- No line break.
abbrev pub one_line : Str → Bool
one_line [] = true
one_line (c ∷ s) = not ((c == 10) || (c == 13)) && one_line s

sanitize-one_line : (n : ℕ) (s : Str) → length s < suc n → one_line (sanitize n s) ≡ true
unfolding sanitize
sanitize-one_line zero [] l = refl
sanitize-one_line zero (c ∷ s) l = absurd (omega arith)
sanitize-one_line (suc n) [] l = refl
sanitize-one_line (suc n) (c ∷ s) l = ground (arith, sanitize-one_line n s)

-- A first question for the logo, with nothing found out yet, has as its answer the first of the candidate
-- paths that is there, for the icon of the distribution's name, and none when none is there.
pub entrance_system_logo_get-FirstThere :
    (m : Machine)
    → (o : Option Str) × (t : SystemInfo) × ((entrance_system_logo_get m
            (record { hostname = none; distro = none; logo_path = none })
          ≡ some (o, t))
        × FirstThere m.file_exists (candidates logo_dirs (icon_name (system_distro_detect m))) o)
unfolding entrance_system_logo_get system_once system_init system_logo_detect
entrance_system_logo_get-FirstThere m = (
  search_paths m (icon_name (system_distro_detect m)) logo_dirs,
  _,
  (refl, logo_dirs-FirstThere m _ logo_dirs),
)

-- The width that the format gives to a value.
abbrev pub ShortValues : Machine → Type 0
ShortValues m = (line key value : Str) → m.sscanf line ≡ some (key, value) → length value < 128

last_quote-length : (s : Str) → length (without_last_quote s) < suc (length s)
unfolding without_last_quote
last_quote-length [] = omega arith
last_quote-length (c ∷ []) = ground arith
last_quote-length (c ∷ d ∷ s) = omega (arith, last_quote-length (d ∷ s))

unquoted-length : (s : Str) → length (without_last_quote (without_first_quote s)) < suc (length s)
unquoted-length [] = last_quote-length []
unquoted-length (c ∷ s) = by_test (c == b'"')
  where
    by_test :
        (b : Bool) → length (without_last_quote (if b then s else c ∷ s)) < suc (suc (length s))
    by_test true = omega (arith, last_quote-length s)
    by_test false = last_quote-length (c ∷ s)

release_name-length :
    (m : Machine) (lines : List Str) (name : Str)
    → ShortValues m
    → release_name m lines ≡ some name
    → length name < 129
unfolding release_name
release_name-length m [] name short e = cc
release_name-length m (line ∷ lines) name short e =
    by_fields (m.sscanf line) refl (release_name m lines)
      (λ h. release_name-length m lines name short h) e
  where
    by_key :
        (b : Bool) (value : Str) (rest : Option Str)
        → length value < 128
        → (rest ≡ some name → length name < 129)
        → ◌≡◌ {A = Option Str}
            (if b then some (without_last_quote (without_first_quote value)) else rest)
            (some name)
        → length name < 129
    by_key true value rest l r e =
        let same : without_last_quote (without_first_quote value) ≡ name = cc in
        subst (λ n. length n < 129) same (omega (arith, unquoted-length value))
    by_key false value rest l r e = r e

    by_fields :
        (o : Option (Str × Str))
        → m.sscanf line ≡ o
        → (rest : Option Str) → (rest ≡ some name → length name < 129)
        → ◌≡◌ {A = Option Str}
            (elim o [
              | none ↦ rest
              | some (key, value) ↦
                  if str_eq key (codes "NAME")
                  then some (without_last_quote (without_first_quote value))
                  else rest
            ])
            (some name)
        → length name < 129
    by_fields none h rest r e = r e
    by_fields (some (key, value)) h rest r e =
        by_key (str_eq key (codes "NAME")) value rest (short line key value h) r e

or_linux-one_line :
    (o : Option Str)
    → ((name : Str) → o ≡ some name → length name < 129)
    → one_line (or_linux o) ≡ true
or_linux-one_line none h = refl
or_linux-one_line (some name) h = sanitize-one_line 4095 name (omega (arith, h name refl))

detect-one_line : (m : Machine) → ShortValues m → one_line (system_distro_detect m) ≡ true
unfolding system_distro_detect
detect-one_line m short = by_etc m.etc_os_release
  where
    by_usr :
        (o : Option (List Str))
        → one_line (elim o [ some lines ↦ or_linux (release_name m lines) | none ↦ codes "Linux" ])
          ≡ true
    by_usr none = refl
    by_usr (some lines) =
        or_linux-one_line (release_name m lines)
          (λ name e. release_name-length m lines name short e)

    by_etc :
        (o : Option (List Str))
        → one_line (elim o [
          | some lines ↦ or_linux (release_name m lines)
          | none ↦ elim m.usr_os_release [
            | some lines ↦ or_linux (release_name m lines)
            | none ↦ codes "Linux"
          ]
        ])
          ≡ true
    by_etc none = by_usr m.usr_os_release
    by_etc (some lines) =
        or_linux-one_line (release_name m lines)
          (λ name e. release_name-length m lines name short e)

-- When the values that `sscanf` finds have the width of its format, a first question for the distribution's
-- name, with nothing found out yet, has a name without line breaks as its answer, and later questions, for
-- the name or the logo, have the answers of the first, whatever the machine has become.
pub entrance_system_distro_get-once :
    (m n : Machine)
    → ShortValues m
    → (d : Str) × (t : SystemInfo) × ((entrance_system_distro_get m
            (record { hostname = none; distro = none; logo_path = none })
          ≡ some (some d, t))
        × ((one_line d ≡ true)
            × ((entrance_system_distro_get n t ≡ some (some d, t))
                × (entrance_system_logo_get n t ≡ some (t.logo_path, t)))))
unfolding entrance_system_distro_get entrance_system_logo_get system_once system_init
entrance_system_distro_get-once m n short =
    (system_distro_detect m, _, (refl, (detect-one_line m short, (refl, refl))))
