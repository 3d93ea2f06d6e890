-- ===== src/Session/Names.antt =====
-- The names in the list that src/daemon/entrance_session.c reads from the desktop files.
use mathlib.Core.List.{Mem, Perm, Nodup, Nodup-cons, Nodup-nil, not-mem-nil, eq-or-mem_of_mem-cons}
use mathlib.Core.HLevel.{⊥_prop}
use mathlib.Core.Logic.Or
use mathlib.Core.List.Perm
use entrance.Session.Desktops.{
  Xsession, Desktop, Desktops, has_name, scan_file, scan_files, desktops_scan, desktops_init,
  entrance_session_sort, xsession_of, add_desktop,
}
use entrance.Common.{
  ◌≡◌, refl, subst, inl, inr, true, false, List, [], ◌∷◌, ◌++◌, Option, none, some, Str, arith,
  str_eq, str_eq_iff, Bool-cases, Option-cases, map, truncate, codes, head?,
}
use Prim.Native.Nat.{Ordering}

abbrev pub names : List Xsession → List Str
names xs = map (λ (x : Xsession). x.name) xs

has_name-Mem :
    (name : Str) (xs : List Xsession) → has_name (some name) xs ≡ some false → ¬ Mem name (names xs)
unfolding has_name
has_name-Mem name [] h m = absurd (not-mem-nil m)
has_name-Mem name (x ∷ xs) h m = elim (Bool-cases (str_eq x.name name)) [
  | inl y ↦ ground arith
  | inr n ↦
      Or.elim ⊥_prop (eq-or-mem_of_mem-cons m) (λ e. ground (arith, str_eq_iff x.name name))
        (λ m'. has_name-Mem name xs (ground arith) m')
]

-- `eina_list_sorted_insert` adds the entry and reorders at most.
module _ (sys : Desktops)
    (inserts : (cmp : Xsession → Xsession → Ordering) (xs : List Xsession) (x : Xsession)
      → Perm (sys.sorted_insert cmp xs x) (x ∷ xs)) where
  add_desktop-Nodup :
      (xs : List Xsession) (path : Str) (d : Desktop)
      → has_name d.name xs ≡ some false
      → Nodup (names xs)
      → Nodup (names (add_desktop sys xs path d))
  unfolding add_desktop
  add_desktop-Nodup xs path d h n = by_command (head? d.commands)
    where
      by_name :
          (c : Str) (o : Option Str)
          → d.name ≡ o
          → Nodup (
              names (elim o [
                | none ↦ xs
                | some name ↦
                    sys.sorted_insert
                      (entrance_session_sort sys)
                      xs
                      (xsession_of sys path name c d.icon)
              ]))
      by_name c none e = n
      by_name c (some name) e =
          let x = xsession_of sys path name c d.icon in
          (Perm.Nodup-iff
              (Perm.map (λ (y : Xsession). y.name) (inserts (entrance_session_sort sys) xs x))).1
            (Nodup-cons.1 (has_name-Mem name xs (rw e at h), n))

      by_command :
          (o : Option Str)
          → Nodup (
              names (elim o [
                | none ↦ xs
                | some command ↦ elim d.name [
                  | none ↦ xs
                  | some name ↦
                      sys.sorted_insert
                        (entrance_session_sort sys)
                        xs
                        (xsession_of sys path name command d.icon)
                ]
              ]))
      by_command none = n
      by_command (some c) = by_name c d.name refl

  scan_file-Nodup :
      (xs : List Xsession) (path : Str) (ys : List Xsession)
      → Nodup (names xs)
      → scan_file sys xs path ≡ some ys
      → Nodup (names ys)
  unfolding scan_file
  scan_file-Nodup xs path ys n h = elim (Option-cases (sys.desktop_get path)) [
    | inl no_file ↦ let same : xs ≡ ys = ground arith in subst (λ zs. Nodup (names zs)) same n
    | inr (d, e) ↦ elim (Option-cases (has_name d.name xs)) [
      | inl fault ↦ ground arith
      | inr (true, q) ↦ let same : xs ≡ ys = ground arith in subst (λ zs. Nodup (names zs)) same n
      | inr (false, q) ↦
          let same : add_desktop sys xs path d ≡ ys = ground arith in
          subst (λ zs. Nodup (names zs)) same (add_desktop-Nodup xs path d q n)
    ]
  ]

  scan_files-Nodup :
      (dir : Str) (files : List Str) (xs ys : List Xsession)
      → Nodup (names xs)
      → scan_files sys xs dir files ≡ some ys
      → Nodup (names ys)
  unfolding scan_files
  scan_files-Nodup dir [] xs ys n h =
      let same : xs ≡ ys = ground arith in subst (λ zs. Nodup (names zs)) same n
  scan_files-Nodup dir (f ∷ files) xs ys n h =
      let path = truncate sys.path_max (dir ++ codes "/" ++ f) in
      elim (Option-cases (scan_file sys xs path)) [
        | inl fault ↦ ground arith
        | inr (zs, e) ↦
            scan_files-Nodup dir files zs ys (scan_file-Nodup xs path zs n e) (ground arith)
      ]

  desktops_scan-Nodup :
      (dir : Str) (xs ys : List Xsession)
      → Nodup (names xs)
      → desktops_scan sys xs dir ≡ some ys
      → Nodup (names ys)
  unfolding desktops_scan
  desktops_scan-Nodup dir xs ys n h = elim (Option-cases (sys.list_dir dir)) [
    | inl unread ↦ let same : xs ≡ ys = ground arith in subst (λ zs. Nodup (names zs)) same n
    | inr (files, e) ↦ scan_files-Nodup dir files xs ys n (ground arith)
  ]

  -- The list of desktop sessions that is read from the three directories has no name twice, when the
  -- sorted insertion adds the entry and reorders at most.
  pub desktops_init-Nodup : (xs : List Xsession) → desktops_init sys ≡ some xs → Nodup (names xs)
  unfolding desktops_init
  desktops_init-Nodup xs h =
      let x11 = codes "/etc/X11/Sessions" in
      let xsessions = codes "/usr/share/xsessions" in
      let wayland = codes "/usr/share/wayland-sessions" in
      elim (Option-cases (desktops_scan sys [] x11)) [
        | inl fault ↦ ground arith
        | inr (ws, e) ↦ elim (Option-cases (desktops_scan sys ws xsessions)) [
          | inl fault ↦ ground arith
          | inr (bs, f) ↦
              desktops_scan-Nodup wayland bs xs
                (desktops_scan-Nodup xsessions ws bs (desktops_scan-Nodup x11 [] ws Nodup-nil e) f)
                (ground arith)
        ]
      ]
