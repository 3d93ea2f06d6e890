-- ===== src/History/Live.antt =====
-- `entrance_history_check` of src/daemon/entrance_history.c, on a history without dangling pointers.
use mathlib.Core.List.{Memᴰ}
use entrance.History.{EntranceLogin, HistoryState, new_login, find_login, entrance_history_check}
use entrance.History.Check.{
  checked, CheckedView, find_login-some, check_known, check_unknown, entrance_history_check_lem,
}
use entrance.Common.{
  ℕ, ◌≡◌, refl, sym, subst, ◌∙◌, inl, inr, List, [], ◌∷◌, ◌++◌, Option, none, some, Str, arith,
  str_eq, Slot, slot_get, slot_set, slot_get-slot_set, slot_get-slot_set_ne, slot_get-append,
  slot_get-append_last, Bool-cases, length, ◌==◌, ==_iff, ne_of_==,
}

-- Each pointer of the list is to a structure that was not freed.
abbrev pub AllLive : List (Slot EntranceLogin) → List ℕ → Type 0
AllLive store ls = (l : ℕ) → Memᴰ l ls → (e : EntranceLogin) × (slot_get store l ≡ some e)

find_login_total :
    (login : Str) (ls : List ℕ) (s : HistoryState)
    → AllLive s.store ls
    → (o : Option ℕ) × (find_login login ls s ≡ some (o, s))
unfolding find_login
find_login_total login [] s live = (none, refl)
find_login_total login (l ∷ ls) s live =
    let (e, at_l) = live l (Memᴰ.head refl) in
    let (o, found) = find_login_total login ls s (λ k m. live k (Memᴰ.tail m)) in
    elim (Bool-cases (str_eq login e.login)) [
      | inl y ↦ (some l, ground arith)
      | inr n ↦ (o, ground arith)
    ]

slot_set-AllLive :
    (store : List (Slot EntranceLogin)) (l : ℕ) (e e' : EntranceLogin) (ls : List ℕ)
    → slot_get store l ≡ some e
    → AllLive store ls
    → AllLive (slot_set store l e') ls
slot_set-AllLive store l e e' ls at_l live k m = elim (Bool-cases (l == k)) [
  | inl y ↦ (
    e',
    subst (λ j. slot_get (slot_set store l e') j ≡ some e') ((==_iff l k).0 y)
        (slot_get-slot_set store l e' at_l),
  )
  | inr n ↦
      let (f, at_k) = live k m in (f, slot_get-slot_set_ne store l k e' (ne_of_== l k n) ∙ at_k)
]

append-AllLive :
    (store : List (Slot EntranceLogin)) (e : EntranceLogin) (ls : List ℕ)
    → AllLive store ls
    → AllLive (store ++ Slot.live e ∷ []) (ls ++ length store ∷ [])
append-AllLive store e [] live k (Memᴰ.head q) = (
  e,
  subst (λ j. slot_get (store ++ Slot.live e ∷ []) j ≡ some e) (sym q)
      (slot_get-append_last store e),
)
append-AllLive store e [] live k (Memᴰ.tail m) = elim m [ ]
append-AllLive store e (l ∷ ls) live k (Memᴰ.head q) =
    let (f, at_k) = live k (Memᴰ.head q) in (f, slot_get-append store (Slot.live e ∷ []) k at_k)
append-AllLive store e (l ∷ ls) live k (Memᴰ.tail m) =
    append-AllLive store e ls (λ j n. live j (Memᴰ.tail n)) k m

-- Only the state after the check matters here.
Checks : Str → Option Str → HistoryState → Type 0
Checks login session s =
    (t : HistoryState) × (entrance_history_check login session s ≡ some (tt, t))
    × AllLive t.store t.history

check_total :
    (login : Str) (session : Option Str) (s : HistoryState)
    → AllLive s.store s.history
    → Checks login session s
unfolding Checks
check_total login session s live =
    let (o, found) = find_login_total login s.history s live in by_found o found
  where
    by_found : (o : Option ℕ) → find_login login s.history s ≡ some (o, s) → Checks login session s
    by_found none f = (
      _,
      check_unknown login session s f,
      append-AllLive s.store (new_login login session) s.history live,
    )
    by_found (some l) f =
        let (e, at_l, named) = find_login-some login s.history s l s f in
        (
          _,
          check_known login session s l e f at_l,
          slot_set-AllLive s.store l e (checked e session) s.history at_l live,
        )

-- On a history without dangling pointers, the check of a login succeeds, leaves no dangling pointer,
-- and changes, in the eyes of a reader who looks up logins in the history, the entry of the login
-- only. An entry that remembers its session and had one then has the session that was asked for, be
-- it none; any other entry keeps its session; and a login without an entry gets one with the session
-- that was asked for.
pub entrance_history_check_total :
    (login : Str) (session : Option Str) (s : HistoryState)
    → AllLive s.store s.history
    → (t : HistoryState) × (o : Option EntranceLogin) × (entrance_history_check login session s
        ≡ some (tt, t))
      × CheckedView login session s t o
      × AllLive t.store t.history
unfolding Checks
entrance_history_check_total login session s live =
    let (t, runs, live_t) = check_total login session s live in
    let (o, view) = entrance_history_check_lem login session s t runs in (t, o, runs, view, live_t)
