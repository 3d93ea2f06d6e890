-- ===== src/Session/Lookup.antt =====
-- `_entrance_session_find_command` of src/daemon/entrance_session.c: which command a login launches.
use mathlib.Core.List.{Memᴰ}
use entrance.Session.Desktops.{Xsession}
use entrance.Session.Command.{Paths, find_in_list, entrance_session_find_command}
use entrance.Common.{
  ◌≡◌, refl, sym, subst, ◌⊎◌, inl, inr, true, false, List, [], ◌∷◌, Option, none, some, Str, arith,
  str_eq, str_eq_iff, Bool-cases, Option-cases,
}

-- A session of the list that has this name and a command.
pub record Listed (xsessions : List Xsession) (name : Str) (cmd : Option Str) : Type 0 where
  pub entry : Xsession
  pub in_list : Memᴰ entry xsessions
  pub named : entry.name ≡ name
  pub command : Str
  pub commanded : entry.command ≡ some command
  pub result : cmd ≡ some command

-- What a session's name is looked up to.
pub data Lookup (sys : Paths) (xsessions : List Xsession) (path : Str) (name : Str)
    (cmd : Option Str) : Type 0 where
  listed : Listed xsessions name cmd → Lookup sys xsessions path name cmd
  unlisted :
      ((x : Xsession) → Memᴰ x xsessions → x.name ≡ name → x.command ≡ none)
      → cmd ≡ entrance_session_find_command sys xsessions path none
      → Lookup sys xsessions path name cmd

data Walk (xsessions : List Xsession) (name : Str) : Option Str ⊎ Option Xsession → Type 0 where
  hit : {cmd : Option Str} → Listed xsessions name cmd → Walk xsessions name (inl cmd)
  miss :
      ((x : Xsession) → Memᴰ x xsessions → x.name ≡ name → x.command ≡ none)
      → Walk xsessions name (inr none)

later :
    (x : Xsession) (xs : List Xsession) (name : Str) (o : Option Str ⊎ Option Xsession)
    → (x.name ≡ name → x.command ≡ none)
    → Walk xs name o
    → Walk (x ∷ xs) name o
later x xs name o skip (hit w) = hit (record {
  entry = w.entry;
  in_list = Memᴰ.tail w.in_list;
  named = w.named;
  command = w.command;
  commanded = w.commanded;
  result = w.result;
})
later x xs name o skip (miss w) = miss all
  where
    all : (y : Xsession) → Memᴰ y (x ∷ xs) → y.name ≡ name → y.command ≡ none
    all y (Memᴰ.head e) n = rw (e) (skip (rw (e) at n))
    all y (Memᴰ.tail m) n = w y m n

skip_eq :
    (x : Xsession) (xs : List Xsession) (name : Str)
    → (x.command ≡ none) ⊎ (str_eq x.name name ≡ false)
    → find_in_list (x ∷ xs) name ≡ find_in_list xs name
unfolding find_in_list
skip_eq x xs name (inl without) = ground arith
skip_eq x xs name (inr other) = elim (Option-cases x.command) [
  | inl without ↦ ground arith
  | inr (c, e) ↦ ground arith
]

hit_eq :
    (x : Xsession) (xs : List Xsession) (name c : Str)
    → x.command ≡ some c
    → str_eq x.name name ≡ true
    → find_in_list (x ∷ xs) name ≡ inl (some c)
unfolding find_in_list
hit_eq x xs name c e same = ground arith

find_in_list-Walk : (xs : List Xsession) (name : Str) → Walk xs name (find_in_list xs name)
unfolding find_in_list
find_in_list-Walk [] name = miss (λ x m n. elim m [ ])
find_in_list-Walk (x ∷ xs) name =
    let tail_walk = find_in_list-Walk xs name in
    elim (Option-cases x.command) [
      | inl without ↦
          subst (Walk (x ∷ xs) name) (sym (skip_eq x xs name (inl without)))
            (later x xs name (find_in_list xs name) (λ n. without) tail_walk)
      | inr (c, e) ↦ elim (Bool-cases (str_eq x.name name)) [
        | inl same ↦ subst (Walk (x ∷ xs) name) (sym (hit_eq x xs name c e same)) (
            hit (record {
              entry = x;
              in_list = Memᴰ.head refl;
              named = (str_eq_iff x.name name).0 same;
              command = c;
              commanded = e;
              result = refl;
            }))
        | inr other ↦ subst (Walk (x ∷ xs) name) (sym (skip_eq x xs name (inr other))) (
            later x xs name (find_in_list xs name) (λ n. ground (arith, str_eq_iff x.name name))
              tail_walk)
      ]
    ]

-- A session name that is asked for launches the command of a listed session of that name; when no
-- listed session of that name has a command, it launches what a login without a session does.
pub entrance_session_find_command_lem :
    (sys : Paths) (xsessions : List Xsession) (path name : Str)
    → Lookup sys xsessions path name (entrance_session_find_command sys xsessions path (some name))
unfolding entrance_session_find_command
entrance_session_find_command_lem sys xsessions path name =
    go (find_in_list xsessions name) (find_in_list-Walk xsessions name) refl
  where
    go :
        (o : Option Str ⊎ Option Xsession)
        → Walk xsessions name o
        → find_in_list xsessions name ≡ o
        → Lookup sys xsessions path name
            (entrance_session_find_command sys xsessions path (some name))
    go o (hit w) e = rw (e, entrance_session_find_command) (listed w)
    go o (miss w) e = rw (e, entrance_session_find_command) (unlisted w refl)
