-- ===== src/Session/Seat.antt =====
-- src/daemon/entrance_session.c: the life of a seat's session, and the cookie that it gets.
use entrance.Session.Defs.{
  Session, Seats, cookie_of, cookie_word, hex_digit, entrance_session_start,
  entrance_session_shutdown, entrance_session_pid_get, entrance_session_login_get,
}
use mathlib.Core.List.{Memᴰ}
use entrance.Common.{
  ℕ, zero, suc, ◌*◌, ◌<◌, ◌≡◌, refl, ◌∙◌, ◌≢◌, List, [], ◌∷◌, ◌++◌, Option, none, some, Str, arith,
  Slot, slot_get, slot_set, set, get_elem?, length, codes, All, get_elem?-set-some, set-set,
  get_elem?-set_ne, length-append, get_elem?-lt,
}

-- A digit of a cookie.
abbrev pub IsHex : ℕ → Type 0
IsHex c = Memᴰ c (codes "0123456789abcdef")

get_elem?-Mem : {A : Type 0} (xs : List A) (i : ℕ) (a : A) → get_elem? xs i ≡ some a → Memᴰ a xs
get_elem?-Mem [] i a e = cc
get_elem?-Mem (x ∷ xs) zero a e = Memᴰ.head (ground arith)
get_elem?-Mem (x ∷ xs) (suc i) a e = Memᴰ.tail (get_elem?-Mem xs i a e)

hex_digit-IsHex : (n : ℕ) → n < 16 → IsHex (hex_digit n)
hex_digit-IsHex n h =
    let (c, e) = get_elem?-lt (codes "0123456789abcdef") n h in
    rw (e) (get_elem?-Mem (codes "0123456789abcdef") n c e)

cookie_word-IsHex : (r : ℕ) → All IsHex (cookie_word r)
unfolding cookie_word
cookie_word-IsHex r = (
  hex_digit-IsHex _ (omega arith),
  (
    hex_digit-IsHex _ (omega arith),
    (hex_digit-IsHex _ (omega arith), (hex_digit-IsHex _ (omega arith), tt)),
  ),
)

length-cookie_word : (r : ℕ) → length (cookie_word r) ≡ 4
unfolding cookie_word
length-cookie_word r = refl

module _ {A : Type 0} (P : A → Type 0) where
  All-append : (xs ys : List A) → All P xs → All P ys → All P (xs ++ ys)
  All-append [] ys a b = b
  All-append (x ∷ xs) ys (p, a) b = (p, All-append xs ys a b)

-- A cookie has four digits of 0-9 and a-f for each round, whatever the random device and the clock
-- yield.
pub cookie_of_lem :
    (rounds : List (Option ℕ × ℕ))
    → (length (cookie_of rounds) ≡ 4 * length rounds) × All IsHex (cookie_of rounds)
unfolding cookie_of
cookie_of_lem [] = (refl, tt)
cookie_of_lem ((read, clock) ∷ rounds) =
    let r : ℕ = elim read [ none ↦ clock | some r ↦ r ] in
    let (len, hex) = cookie_of_lem rounds in
    (
      omega (arith, length-append (cookie_word r) (cookie_of rounds), length-cookie_word r),
      All-append IsHex (cookie_word r) (cookie_of rounds) (cookie_word-IsHex r) hex,
    )

-- A seat whose session is not used any more: each operation on it faults.
pub record Gone (id : ℕ) (s : Seats) : Type 0 where
  pub no_pid : entrance_session_pid_get id s ≡ none
  pub no_login : entrance_session_login_get id s ≡ none
  pub no_shutdown : entrance_session_shutdown id s ≡ none

pub freed_Gone : (id : ℕ) (s : Seats) → get_elem? s.sessions id ≡ some Slot.freed → Gone id s
unfolding entrance_session_pid_get entrance_session_login_get entrance_session_shutdown slot_get
freed_Gone id s e = record {
  no_pid = ground arith;
  no_login = ground arith;
  no_shutdown = ground arith;
}

abbrev pub started : (Str → Option Str) → List (Option ℕ × ℕ) → Str → ℕ → Session
started strdup rounds display vt = record {
  pid = 0;
  vt = vt;
  login = none;
  mcookie = some (cookie_of rounds);
  display = strdup display;
}

pub start_eq :
    (strdup : Str → Option Str) (rounds : List (Option ℕ × ℕ)) (id : ℕ) (display : Str) (vt : ℕ)
    (s : Seats) (old : Slot Session)
    → get_elem? s.sessions id ≡ some old
    → entrance_session_start strdup rounds id display vt s
      ≡ some (
        tt,
        record s { sessions = set s.sessions id (Slot.live (started strdup rounds display vt)) },
      )
unfolding entrance_session_start slot_get slot_set
start_eq strdup rounds id display vt s old e =
    let p : Session = record {
      pid = 0;
      vt = vt;
      login = none;
      mcookie = none;
      display = strdup display;
    } in
    ground (
      arith,
      get_elem?-set-some s.sessions id (Slot.live p) e,
      set-set s.sessions id (Slot.live p) (Slot.live (started strdup rounds display vt)),
    )

-- Starting a session on a seat of the array gives it the virtual terminal, a fresh cookie and no
-- login. Shutting it down frees it once; after that the seat is unusable: asking for its process or
-- its login, or shutting it down again, is a fault. The other seats keep their sessions.
pub entrance_session_shutdown_lem :
    (strdup : Str → Option Str) (rounds : List (Option ℕ × ℕ)) (id : ℕ) (display : Str) (vt : ℕ)
    (s : Seats) (old : Slot Session)
    → get_elem? s.sessions id ≡ some old
    → (t : Seats) × (u : Seats) × (entrance_session_start strdup rounds id display vt s
        ≡ some (tt, t))
      × (slot_get t.sessions id ≡ some (started strdup rounds display vt))
      × (entrance_session_shutdown id t ≡ some (tt, u))
      × Gone id u
      × ((j : ℕ) → id ≢ j → get_elem? u.sessions j ≡ get_elem? s.sessions j)
unfolding entrance_session_shutdown slot_get
entrance_session_shutdown_lem strdup rounds id display vt s old e =
    let p = Slot.live (started strdup rounds display vt) in
    let t : Seats = record s { sessions = set s.sessions id p } in
    let u : Seats = record t { sessions = set t.sessions id Slot.freed } in
    let at_t = get_elem?-set-some s.sessions id p e in
    (
      t,
      u,
      start_eq strdup rounds id display vt s old e,
      ground (arith, at_t),
      ground (arith, at_t),
      freed_Gone id u (get_elem?-set-some t.sessions id Slot.freed at_t),
      λ j ne.
          get_elem?-set_ne t.sessions id j Slot.freed ne ∙ get_elem?-set_ne s.sessions id j p ne,
    )
