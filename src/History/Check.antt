-- ===== src/History/Check.antt =====
-- `entrance_history_check` of src/daemon/entrance_history.c, as its reader sees the entries.
use entrance.Common.{
  ℕ, ◌≡◌, refl, ap, sym, ◌∙◌, inl, inr, true, false, List, [], ◌∷◌, ◌++◌, Option, none, some, Str,
  arith, str_eq, str_eq_iff, Slot, slot_get, slot_set, slot_get-slot_set, length, Bool-cases,
  Option-cases, if◌then◌else◌, str_eq_refl, ◌||◌, ◌&&◌, is_some, ◌==◌, ==_iff, ne_of_==,
  slot_get-slot_set_ne, slot_get-append, slot_get-append_last,
}
use entrance.History.{
  EntranceLogin, HistoryState, new_login, find_login, update_entry, add_entry,
  entrance_history_check, new_session,
}

-- The entry that the history holds for a login, through the store; none on a dangling pointer.
pub entry_of : List (Slot EntranceLogin) → Str → List ℕ → Option (Option EntranceLogin)
entry_of store login [] = some none
entry_of store login (l ∷ ls) =
    let rest = entry_of store login ls in
    elim (slot_get store l) [
      | none ↦ none
      | some e ↦ if str_eq login e.login then some (some e) else rest
    ]

-- The session that an entry keeps: the one asked for, when the entry remembers sessions and had one.
abbrev pub remembered : EntranceLogin → Option Str → Option Str
remembered e session = if e.remember_session && is_some e.session then session else e.session

abbrev pub checked : EntranceLogin → Option Str → EntranceLogin
checked e session = record e { session = remembered e session }

new_session-remembered :
    (e : EntranceLogin) (session : Option Str) → (new_session e session).0 ≡ remembered e session
unfolding new_session
new_session-remembered e none = elim (Option-cases e.session) [
  | inl n ↦ ground arith
  | inr (old, n) ↦ ground arith
]
new_session-remembered e (some name) = elim (Option-cases e.session) [
  | inl n ↦ ground arith
  | inr (old, n) ↦ ground (arith, str_eq_iff name old)
]

pub find_login_state :
    (login : Str) (ls : List ℕ) (s : HistoryState) (o : Option ℕ) (t : HistoryState)
    → find_login login ls s ≡ some (o, t)
    → t ≡ s
unfolding find_login
find_login_state login [] s o t h = cc
find_login_state login (l ∷ ls) s o t h = ground (arith, find_login_state login ls s o t)

-- The pointer found is one of the list, to a live structure with the login.
pub find_login-some :
    (login : Str) (ls : List ℕ) (s : HistoryState) (l : ℕ) (t : HistoryState)
    → find_login login ls s ≡ some (some l, t)
    → (e : EntranceLogin) × (slot_get s.store l ≡ some e) × (e.login ≡ login)
unfolding find_login
find_login-some login [] s l t h = cc
find_login-some login (k ∷ ls) s l t h = elim (Option-cases (slot_get s.store k)) [
  | inl n ↦ ground arith
  | inr (e, q) ↦ elim (Bool-cases (str_eq login e.login)) [
    | inl y ↦ (e, ground arith, ground (arith, str_eq_iff login e.login))
    | inr n ↦ find_login-some login ls s l t (ground arith)
  ]
]

-- The walk of `find_login` and the entry agree.
entry_of-find_login :
    (login : Str) (ls : List ℕ) (s : HistoryState) (o : Option ℕ)
    → find_login login ls s ≡ some (o, s)
    → entry_of s.store login ls ≡ elim o [ none ↦ some none | some l ↦ some (slot_get s.store l) ]
unfolding find_login entry_of
entry_of-find_login login [] s o h = ground arith
entry_of-find_login login (l ∷ ls) s o h = ground (arith, entry_of-find_login login ls s o)

module _ (store : List (Slot EntranceLogin)) (l : ℕ) (e e' : EntranceLogin)
    (at_l : slot_get store l ≡ some e) (same_login : e'.login ≡ e.login) where
  -- A changed structure shows under its own login only.
  entry_of-slot_set_ne :
      (j : Str) (ls : List ℕ)
      → str_eq j e.login ≡ false
      → entry_of (slot_set store l e') j ls ≡ entry_of store j ls
  unfolding entry_of
  entry_of-slot_set_ne j [] h = refl
  entry_of-slot_set_ne j (k ∷ ls) h = elim (Bool-cases (l == k)) [
    | inl y ↦
        let at_k : slot_get (slot_set store l e') k ≡ some e' =
          rw (sym ((==_iff l k).0 y)) (slot_get-slot_set store l e' at_l) in
        let was_k : slot_get store k ≡ some e = rw (sym ((==_iff l k).0 y)) at_l in
        ground (arith, at_k, was_k, ap (str_eq j) same_login, entry_of-slot_set_ne j ls h)
    | inr n ↦
        ground
          (arith, slot_get-slot_set_ne store l k e' (ne_of_== l k n), entry_of-slot_set_ne j ls h)
  ]

  -- Under its own login the first structure of the list shows, changed.
  entry_of-slot_set_self :
      (ls : List ℕ) (s : HistoryState)
      → s.store ≡ store
      → find_login e.login ls s ≡ some (some l, s)
      → entry_of (slot_set store l e') e.login ls ≡ some (some e')
  unfolding entry_of find_login
  entry_of-slot_set_self [] s q h = cc
  entry_of-slot_set_self (k ∷ ls) s q h = elim (Bool-cases (l == k)) [
    | inl y ↦
        let at_k : slot_get (slot_set store l e') k ≡ some e' =
          rw (sym ((==_iff l k).0 y)) (slot_get-slot_set store l e' at_l) in
        ground (arith, at_k, ap (str_eq e.login) same_login, str_eq_refl e.login)
    | inr n ↦ ground (
      arith,
      slot_get-slot_set_ne store l k e' (ne_of_== l k n),
      ap (λ x. slot_get x k) q,
      (==_iff l k).1,
      ap (λ x. slot_get x l) q,
      entry_of-slot_set_self ls s q,
    )
  ]

-- A list all of whose pointers are live: a walk for some login came to its end.
entry_of-append :
    (store : List (Slot EntranceLogin)) (n : EntranceLogin) (j : Str) (ls : List ℕ)
    → entry_of store n.login ls ≡ some none
    → entry_of (store ++ Slot.live n ∷ []) j (ls ++ length store ∷ [])
      ≡ (if str_eq j n.login then some (some n) else entry_of store j ls)
unfolding entry_of
entry_of-append store n j [] h = ground (arith, slot_get-append_last store n)
entry_of-append store n j (k ∷ ls) h = elim (Option-cases (slot_get store k)) [
  | inl q ↦ ground arith
  | inr (e, q) ↦ ground (
    arith,
    slot_get-append store (Slot.live n ∷ []) k q,
    entry_of-append store n j ls,
    str_eq_iff n.login e.login,
    str_eq_iff j e.login,
    str_eq_iff j n.login,
  )
]

update_entry_lem :
    (l : ℕ) (session : Option Str) (s : HistoryState) (e : EntranceLogin)
    → slot_get s.store l ≡ some e
    → update_entry l session s
      ≡ some (
        tt,
        record s {
          store = slot_set s.store l (checked e session);
          history_update = s.history_update || (new_session e session).1;
        },
      )
unfolding update_entry
update_entry_lem l session s e h =
    ground
      (arith, slot_get-slot_set s.store l (checked e session) h, new_session-remembered e session)

-- The outcome as a whole: a known login has its first entry changed, an unknown one is appended.
abbrev pub checked_entry : Option EntranceLogin → Str → Option Str → EntranceLogin
checked_entry none login session = new_login login session
checked_entry (some e) login session = checked e session

pub check_known :
    (login : Str) (session : Option Str) (s : HistoryState) (l : ℕ) (e : EntranceLogin)
    → find_login login s.history s ≡ some (some l, s)
    → slot_get s.store l ≡ some e
    → entrance_history_check login session s
      ≡ some (
        tt,
        record s {
          store = slot_set s.store l (checked e session);
          history_update = s.history_update || (new_session e session).1;
        },
      )
unfolding entrance_history_check
check_known login session s l e f h = ground (arith, update_entry_lem l session s e h)

pub check_unknown :
    (login : Str) (session : Option Str) (s : HistoryState)
    → find_login login s.history s ≡ some (none, s)
    → entrance_history_check login session s
      ≡ some (
        tt,
        record s {
          store = s.store ++ Slot.live (new_login login session) ∷ [];
          history = s.history ++ length s.store ∷ [];
          history_update = true;
        },
      )
unfolding entrance_history_check add_entry
check_unknown login session s f = ground arith

-- The entries after a check, given the entry of the login before it.
pub record CheckedView (login : Str) (session : Option Str) (s t : HistoryState)
    (o : Option EntranceLogin) : Type 0 where
  pub before : entry_of s.store login s.history ≡ some o
  pub after :
      (j : Str)
      → entry_of t.store j t.history ≡ (
          if str_eq j login
          then some (some (checked_entry o login session))
          else entry_of s.store j s.history)

known_view :
    (login : Str) (session : Option Str) (s t : HistoryState) (l : ℕ)
    → find_login login s.history s ≡ some (some l, s)
    → entrance_history_check login session s ≡ some (tt, t)
    → (o : Option EntranceLogin) × CheckedView login session s t o
known_view login session s t l f h =
    let (e, at_l, named) = find_login-some login s.history s l s f in
    let e' = checked e session in
    let h' = check_known login session s l e f at_l in
    let store_eq : t.store ≡ slot_set s.store l e' = ground (arith, h') in
    let history_eq : t.history ≡ s.history = ground (arith, h') in
    (
      some e,
      record {
        before = entry_of-find_login login s.history s (some l) f ∙ ap some at_l;
        after = λ j.
            rw (store_eq, history_eq)
              (elim (Bool-cases (str_eq j login)) [
                | inl y ↦
                    rw (y, (str_eq_iff j login).0 y, sym named)
                      (entry_of-slot_set_self s.store l e e' at_l refl s.history s refl
                        (rw named f))
                | inr n ↦ rw n (
                    entry_of-slot_set_ne s.store l e e' at_l refl j s.history
                      (ground (arith, ap (str_eq j) named)))
              ]);
      },
    )

unknown_view :
    (login : Str) (session : Option Str) (s t : HistoryState)
    → find_login login s.history s ≡ some (none, s)
    → entrance_history_check login session s ≡ some (tt, t)
    → CheckedView login session s t none
unknown_view login session s t f h =
    let n = new_login login session in
    let h' = check_unknown login session s f in
    let store_eq : t.store ≡ s.store ++ Slot.live n ∷ [] = ground (arith, h') in
    let history_eq : t.history ≡ s.history ++ length s.store ∷ [] = ground (arith, h') in
    let before : entry_of s.store login s.history ≡ some none =
      entry_of-find_login login s.history s none f in
    record {
      before = before;
      after = λ j. rw (store_eq, history_eq) (entry_of-append s.store n j s.history before);
    }

-- A check of the history that does not fault changes, in the eyes of a reader who looks up logins in
-- it, the entry of the login only. An entry that remembers its session and had one has the session
-- that was asked for, be it none; any other entry keeps its session; and a login without an entry gets
-- one with the session that was asked for.
pub entrance_history_check_lem :
    (login : Str) (session : Option Str) (s t : HistoryState)
    → entrance_history_check login session s ≡ some (tt, t)
    → (o : Option EntranceLogin) × CheckedView login session s t o
unfolding entrance_history_check
entrance_history_check_lem login session s t h = go (find_login login s.history s) refl
  where
    go :
        (x : Option (Option ℕ × HistoryState))
        → find_login login s.history s ≡ x
        → (o : Option EntranceLogin) × CheckedView login session s t o
    go none e = ground arith
    go (some (none, u)) e = (
      none,
      unknown_view login session s t (rw (find_login_state login s.history s none u e) at e) h,
    )
    go (some (some l, u)) e =
        known_view login session s t l (rw (find_login_state login s.history s (some l) u e) at e) h
