-- ===== src/Startup/Runs.antt =====
-- The start and the end of all seats in src/daemon/entrance.c.
use entrance.Pam.{entrance_pams_init}
use entrance.Session.Defs.{with_pam, entrance_sessions_init}
use entrance.Session.Seat.{started, start_eq}
use entrance.Xserver.{Xserver, Xservers, entrance_xservers_init, entrance_xservers_shutdown}
use entrance.Xserver.Seats.{start-run, shutdown-run, started_at, freed_at}
use entrance.Startup.{
  Boot, BootSystem, with_sessions, with_xservers, kill_xserver, kill_xservers, seat_xserver_start,
  start_seats, seats_init, shutdown_xservers, seats_shutdown,
}
use entrance.Common.{
  ℕ, zero, suc, ◌+◌, ◌<◌, ◌≤◌, ◌≡◌, ◌≢◌, refl, sym, ◌∙◌, ap, subst, inl, inr, List, [], ◌∷◌, ◌++◌,
  Option, none, some, arith, Slot, get_elem?, set, replicate, length, get_elem?-lt,
  get_elem?-set-some, get_elem?-set_ne, ==_iff, ne_of_==, ◌==◌, Bool-cases,
}

length-set : {A : Type 0} (xs : List A) (i : ℕ) (v : A) → length (set xs i v) ≡ length xs
length-set [] i v = refl
length-set (x ∷ xs) zero v = refl
length-set (x ∷ xs) (suc i) v = ap suc (length-set xs i v)

length-replicate : {A : Type 0} (n : ℕ) (a : A) → length (replicate n a) ≡ n
length-replicate zero a = refl
length-replicate (suc n) a = ap suc (length-replicate n a)

-- The seats from `low` to below `high` have live X servers.
abbrev pub LiveFrom : ℕ → ℕ → Xservers → Type 0
LiveFrom low high s =
    (j : ℕ) → low ≤ j → j < high → (x : Xserver) × (get_elem? s.xservers j ≡ some (Slot.live x))

-- The pids of the X servers of `n` seats from `id` on.
abbrev pub forks_from : (ℕ → Option ℕ) → ℕ → ℕ → List (Option ℕ)
forks_from fork id zero = []
forks_from fork id (suc n) = fork id ∷ forks_from fork (suc id) n

record Sized (n : ℕ) (s : Boot) : Type 0 where
  sessions : length s.seats.sessions ≡ n
  servers : length s.xservers.xservers ≡ n

-- What the start of a seat leaves of the rest.
record Kept (s t : Boot) : Type 0 where
  killed : t.killed ≡ s.killed
  seat_count : t.seat_count ≡ s.seat_count

extend_live :
    (id : ℕ) (x : Xserver) (s t : Xservers)
    → id < length s.xservers
    → t.xservers ≡ set s.xservers id (Slot.live x)
    → LiveFrom 0 id s
    → LiveFrom 0 (suc id) t
extend_live id x s t inside e live j low high = elim (Bool-cases (id == j)) [
  | inl y ↦
      let same : id ≡ j = (==_iff id j).0 y in
      let (old, at) = get_elem?-lt s.xservers id inside in
      (
        x,
        ap (λ l. get_elem? l j) e
            ∙ (ap (get_elem? (set s.xservers id (Slot.live x))) (sym same)
                ∙ get_elem?-set-some s.xservers id (Slot.live x) at),
      )
  | inr n ↦
      let ne = ne_of_== id j n in
      let (y, at) = live j low (omega (arith, ne)) in
      (y, ap (λ l. get_elem? l j) e ∙ (get_elem?-set_ne s.xservers id j (Slot.live x) ne ∙ at))
]

shrink_live :
    (id n : ℕ) (s t : Xservers)
    → t.xservers ≡ set s.xservers id Slot.freed
    → LiveFrom id n s
    → LiveFrom (suc id) n t
shrink_live id n s t e live j low high =
    let ne : id ≢ j = λ h. omega (arith, h) in
    let (y, at) = live j (omega arith) high in
    (y, ap (λ l. get_elem? l j) e ∙ (get_elem?-set_ne s.xservers id j Slot.freed ne ∙ at))

module _ (sys : BootSystem) where
  one_seat :
      (id n : ℕ) (s : Boot)
      → id < n
      → Sized n s
      → (t : Boot) × ((seat_xserver_start sys id s ≡ some (sys.fork id, t))
          × (Sized n t
              × (Kept s t
                  × (t.xservers
                      ≡ started_at sys.fork id (sys.display id) (sys.vtnr + id) s.xservers))))
  unfolding seat_xserver_start with_sessions with_xservers
  one_seat id n s l z =
      let (o, e) = get_elem?-lt s.seats.sessions id (omega (arith, z.sessions)) in
      let (p, f) = get_elem?-lt s.xservers.xservers id (omega (arith, z.servers)) in
      let session =
        start_eq sys.strdup (sys.random id) id (sys.display id) (sys.vtnr + id) s.seats o e in
      let server =
        start-run sys.fork sys.auto_login id (sys.display id) (sys.vtnr + id) s.xservers p f in
      (
        record s {
          seats = record (s.seats) {
            sessions =
                set s.seats.sessions id
                  (Slot.live (started sys.strdup (sys.random id) (sys.display id) (sys.vtnr + id)));
          };
          xservers = started_at sys.fork id (sys.display id) (sys.vtnr + id) s.xservers;
        },
        (
          ground arith,
          (
            record {
              sessions = length-set s.seats.sessions id _ ∙ z.sessions;
              servers = length-set s.xservers.xservers id _ ∙ z.servers;
            },
            (record { killed = refl; seat_count = refl }, refl),
          ),
        ),
      )

  all_seats :
      (k id n : ℕ) (s : Boot)
      → id + k ≡ n
      → Sized n s
      → LiveFrom 0 id s.xservers
      → (t : Boot) × ((start_seats sys id k s ≡ some (forks_from sys.fork id k, t))
          × (Kept s t × LiveFrom 0 n t.xservers))
  unfolding start_seats
  all_seats zero id n s e z live =
      let whole : id ≡ n = omega (arith, e) in
      (
        s,
        (
          refl,
          (
            record { killed = refl; seat_count = refl },
            subst (λ m. LiveFrom 0 m s.xservers) whole live,
          ),
        ),
      )
  all_seats (suc k) id n s e z live =
      let (t, (run, (size, (kept, at)))) = one_seat id n s (omega (arith, e)) z in
      let inside : id < length s.xservers.xservers = omega (arith, e, z.servers) in
      let live_t =
        extend_live id _ s.xservers t.xservers inside (ap (λ (x : Xservers). x.xservers) at) live in
      let (u, (rest, (more, all))) = all_seats k (suc id) n t (omega (arith, e)) size live_t in
      (
        u,
        (
          ground arith,
          (
            record {
              killed = more.killed ∙ kept.killed;
              seat_count = more.seat_count ∙ kept.seat_count;
            },
            all,
          ),
        ),
      )

  all_shut :
      (k id n : ℕ) (s : Boot)
      → id + k ≡ n
      → LiveFrom id n s.xservers
      → (t : Boot) × ((shutdown_xservers sys id k s ≡ some (tt, t)) × (t.killed ≡ s.killed))
  unfolding shutdown_xservers with_xservers
  all_shut zero id n s e live = (s, (refl, refl))
  all_shut (suc k) id n s e live =
      let (x, at) = live id (omega arith) (omega (arith, e)) in
      let first = shutdown-run sys.fork sys.auto_login id x s.xservers at in
      let v : Boot = record s { xservers = freed_at id s.xservers } in
      let (t, (rest, kept)) =
        all_shut k (suc id) n v (omega (arith, e))
          (shrink_live id n s.xservers v.xservers refl live) in
      (t, (ground arith, kept))

append_pids : (a b : List (Option ℕ)) (p : Option ℕ) → (a ++ p ∷ []) ++ b ≡ a ++ (p ∷ b)
append_pids [] b p = refl
append_pids (x ∷ a) b p = ap (◌∷◌ x) (append_pids a b p)

append_none : (a : List (Option ℕ)) → a ++ [] ≡ a
append_none [] = refl
append_none (x ∷ a) = ap (◌∷◌ x) (append_none a)

kill_one :
    (p : Option ℕ) (s : Boot)
    → p ≢ some 0
    → kill_xserver p s ≡ some (tt, record s { killed = s.killed ++ p ∷ [] })
unfolding kill_xserver
kill_one none s h = refl
kill_one (some zero) s h = absurd (h refl)
kill_one (some (suc pid)) s h = refl

kill_all :
    (fork : ℕ → Option ℕ) (n id : ℕ) (s : Boot)
    → ((i : ℕ) → fork i ≢ some 0)
    → kill_xservers (forks_from fork id n) s
      ≡ some (tt, record s { killed = s.killed ++ forks_from fork id n })
unfolding kill_xservers
kill_all fork zero id s h =
    ap (λ l. some (tt, record s { killed = l })) (sym (append_none s.killed))
kill_all fork (suc n) id s h =
    let first = kill_one (fork id) s (h id) in
    let v : Boot = record s { killed = s.killed ++ fork id ∷ [] } in
    let rest = kill_all fork n (suc id) v h in
    let joined = append_pids s.killed (forks_from fork (suc id) n) (fork id) in ground arith

replicate_Sized :
    (count : ℕ) (s t : Boot)
    → t.seats.sessions ≡ replicate count Slot.null
    → t.xservers.xservers ≡ replicate count Slot.null
    → Sized count t
replicate_Sized count s t a b = record {
  sessions = ap length a ∙ length-replicate count Slot.null;
  servers = ap length b ∙ length-replicate count Slot.null;
}

-- The state before the loop over the seats.
initial : ℕ → Boot → Boot
initial count s = record s {
  seat_count = count;
  xservers = record (s.xservers) { xservers = replicate count Slot.null; xserver_count = count };
  clients = replicate count Slot.null;
  seats = record (s.seats) {
    sessions = replicate count Slot.null;
    pam = record (s.seats.pam) { pams = replicate count Slot.null };
  };
}

init-run :
    (sys : BootSystem) (count : ℕ) (s : Boot)
    → (t : Boot) × ((seats_init sys count s ≡ some (tt, t))
        × ((t.xserver_pids ≡ some (forks_from sys.fork 0 count))
            × (Kept (initial count s) t × LiveFrom 0 count t.xservers)))
unfolding seats_init with_sessions with_xservers entrance_xservers_init entrance_sessions_init
    initial with_pam entrance_pams_init
init-run sys count s =
    let size = replicate_Sized count s (initial count s) refl refl in
    let (t, (run, (kept, live))) =
      all_seats sys count 0 count (initial count s) (omega arith) size
        (λ j l h. absurd (omega arith)) in
    (
      record t { xserver_pids = some (forks_from sys.fork 0 count) },
      (ground arith, (refl, (record { killed = kept.killed; seat_count = kept.seat_count }, live))),
    )

shutdown_all-run :
    (sys : BootSystem) (count : ℕ) (t : Boot)
    → ((id : ℕ) → sys.fork id ≢ some 0)
    → t.xserver_pids ≡ some (forks_from sys.fork 0 count)
    → t.seat_count ≡ count
    → LiveFrom 0 count t.xservers
    → (u : Boot) × ((seats_shutdown sys t ≡ some (tt, u))
        × ((u.killed ≡ t.killed ++ forks_from sys.fork 0 count) × (u.xservers.xservers ≡ [])))
unfolding seats_shutdown with_xservers entrance_xservers_shutdown
shutdown_all-run sys count t h pids number live =
    let v : Boot = record t { killed = t.killed ++ forks_from sys.fork 0 count } in
    let kills = kill_all sys.fork count 0 t h in
    let (w, (run, kept)) = all_shut sys count 0 count v (omega arith) live in
    (
      record w { xservers = record (w.xservers) { xservers = []; xserver_count = 0 } },
      (ground arith, (kept, refl)),
    )

-- When no fork answers 0 to the daemon, the start of any number of seats ends with a live X server at each
-- of them, and the shutdown from there ends without a fault: it has sent a signal to the answer of each
-- seat's fork once, in the order of the seats, -1 included where a fork had failed, and has freed the
-- array.
pub seats_shutdown_total :
    (sys : BootSystem) (count : ℕ) (s : Boot)
    → ((id : ℕ) → sys.fork id ≢ some 0)
    → (t : Boot) × (u : Boot) × ((seats_init sys count s ≡ some (tt, t))
        × (LiveFrom 0 count t.xservers
            × ((seats_shutdown sys t ≡ some (tt, u))
                × ((u.killed ≡ s.killed ++ forks_from sys.fork 0 count)
                    × (u.xservers.xservers ≡ [])))))
unfolding initial
seats_shutdown_total sys count s h =
    let (t, (run, (pids, (kept, live)))) = init-run sys count s in
    let (u, (ends, (kills, empty))) = shutdown_all-run sys count t h pids kept.seat_count live in
    (
      t,
      u,
      (
        run,
        (live, (ends, (kills ∙ ap (λ l. l ++ forks_from sys.fork 0 count) kept.killed, empty))),
      ),
    )
