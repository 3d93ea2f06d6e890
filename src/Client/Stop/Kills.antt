-- ===== src/Client/Stop/Kills.antt =====
-- What the handler of the signals in src/daemon/entrance.c kills.
use entrance.Client.{Client}
use entrance.Client.Stop.{Stopper, kill_pid, kill_clients, signal_cb}
use entrance.Common.{
  ℕ, zero, suc, ◌+◌, ◌<◌, ◌≤◌, ◌≡◌, refl, sym, ◌∙◌, ap, subst, ◌⊎◌, inl, inr, true, List, [], ◌∷◌,
  ◌++◌, Option, none, some, arith, Slot, slot_get, length, Bool-cases, Option-cases, is_some,
  if◌then◌else◌, ==_iff, ne_of_==, ◌==◌,
}

-- The pids of the clients that run, in the order of their seats.
abbrev pub pid_of : Client → List ℕ
pid_of c = if is_some c.exe then c.pid ∷ [] else []

abbrev pub running : List Client → List ℕ
running [] = []
running (c ∷ cs) = pid_of c ++ running cs

-- The seats of the array from `i` on have these clients.
abbrev pub HasClients : List (Slot Client) → ℕ → List Client → Type 0
HasClients clients i [] = Unit
HasClients clients i (c ∷ cs) = (slot_get clients i ≡ some c) × HasClients clients (suc i) cs

append_assoc : (a b c : List ℕ) → a ++ b ++ c ≡ a ++ (b ++ c)
append_assoc [] b c = refl
append_assoc (x ∷ a) b c = ap (◌∷◌ x) (append_assoc a b c)

append_nil : (a : List ℕ) → a ++ [] ≡ a
append_nil [] = refl
append_nil (x ∷ a) = ap (◌∷◌ x) (append_nil a)

killed_with : List ℕ → Stopper → Stopper
killed_with pids s = record s { killed = s.killed ++ pids }

client_step :
    (clients : List (Slot Client)) (i n : ℕ) (c : Client) (pids : List ℕ) (s : Stopper)
    → slot_get clients i ≡ some c
    → ((u : Stopper) → kill_clients clients (suc i) n u ≡ some (tt, killed_with pids u))
    → kill_clients clients i (suc n) s ≡ some (tt, killed_with (pid_of c ++ pids) s)
unfolding kill_clients kill_pid killed_with
client_step clients i n c pids s at rest = elim (Bool-cases (is_some c.exe)) [
  | inl y ↦
      let after = rest (record s { killed = s.killed ++ c.pid ∷ [] }) in
      let joined = append_assoc s.killed (c.pid ∷ []) pids in ground arith
  | inr n ↦ let after = rest s in ground arith
]

clients-run :
    (clients : List (Slot Client)) (i : ℕ) (cs : List Client) (s : Stopper)
    → HasClients clients i cs
    → kill_clients clients i (length cs) s ≡ some (tt, killed_with (running cs) s)
unfolding kill_clients killed_with
clients-run clients i [] s h =
    ap (λ l. some (tt, record s { killed = l })) (sym (append_nil s.killed))
clients-run clients i (c ∷ cs) s (at, h) =
    client_step clients i (length cs) c (running cs) s at (λ u. clients-run clients (suc i) cs u h)

-- A seat without a client, or with a freed one, in the array.
fault-run :
    (clients : List (Slot Client)) (i n j : ℕ) (s : Stopper)
    → i ≤ j
    → j < i + n
    → slot_get clients j ≡ none
    → kill_clients clients i n s ≡ none
unfolding kill_clients kill_pid
fault-run clients i zero j s low high at = absurd (omega arith)
fault-run clients i (suc n) j s low high at = elim (Bool-cases (i == j)) [
  | inl y ↦
      let same : i ≡ j = (==_iff i j).0 y in
      let here : slot_get clients i ≡ none = ap (slot_get clients) same ∙ at in ground arith
  | inr ne ↦
      let later : (u : Stopper) → kill_clients clients (suc i) n u ≡ none =
        λ u. fault-run clients (suc i) n j u (omega (arith, ne_of_== i j ne)) (omega arith) at in
      elim (Option-cases (slot_get clients i)) [
        | inl missing ↦ ground arith
        | inr (c, there) ↦ elim (Bool-cases (is_some c.exe)) [
          | inl y ↦ let after = later (record s { killed = s.killed ++ c.pid ∷ [] }) in ground arith
          | inr n ↦ let after = later s in ground arith
        ]
      ]
]

-- Every seat from `i` on has a client, or one has none.
survey :
    (clients : List (Slot Client)) (i n : ℕ)
    → ((cs : List Client) × ((length cs ≡ n) × HasClients clients i cs))
      ⊎ ((j : ℕ) × ((i ≤ j) × ((j < i + n) × (slot_get clients j ≡ none))))
survey clients i zero = inl ([], (refl, tt))
survey clients i (suc n) = elim (Option-cases (slot_get clients i)) [
  | inl missing ↦ inr (i, (omega arith, (omega arith, missing)))
  | inr (c, at) ↦ elim (survey clients (suc i) n) [
    | inl (cs, (count, has)) ↦ inl (c ∷ cs, (ap suc count, (at, has)))
    | inr (j, (low, (high, missing))) ↦
        inr (j, (omega (arith, low), (omega (arith, high), missing)))
  ]
]

-- The outcome of the handler.
pub data Signalled (sig : ℕ) (clients : List (Slot Client)) (s : Stopper)
    : Option (Unit {0} × Stopper) → Type 0 where
  clients_killed :
      (cs : List Client) {t : Stopper}
      → length cs ≡ s.seat_count
      → HasClients clients 0 cs
      → t.killed ≡ s.killed ++ running cs
      → t.quit ≡ true
      → t.signal ≡ sig
      → Signalled sig clients s (some (tt, t))
  no_client : (j : ℕ) → j < s.seat_count → slot_get clients j ≡ none → Signalled sig clients s none

-- Once the array of the clients is made, a signal that ends the daemon tells exactly the clients that run to
-- end, in the order of the seats, and the main loop too, when each seat has a client; it is a fault, the use
-- of a NULL client, only when a seat has none.
pub signal_cb-Signalled :
    (sig : ℕ) (clients : List (Slot Client)) (s : Stopper)
    → s.clients ≡ some clients
    → Signalled sig clients s (signal_cb sig s)
unfolding signal_cb killed_with
signal_cb-Signalled sig clients s made = elim (survey clients 0 s.seat_count) [
  | inr (j, (low, (high, missing))) ↦
      let stuck = fault-run clients 0 s.seat_count j (record s { signal = sig }) low high missing in
      let faults : signal_cb sig s ≡ none = ground arith in
      subst (Signalled sig clients s) (sym faults) (no_client j (omega (arith, high)) missing)
  | inl (cs, (count, has)) ↦
      let run =
        ap (λ n. kill_clients clients 0 n (record s { signal = sig })) (sym count)
        ∙ clients-run clients 0 cs (record s { signal = sig }) has in
      let ends : signal_cb sig s
          ≡ some (tt, record s { signal = sig; killed = s.killed ++ running cs; quit = true }) =
        ground arith in
      subst (Signalled sig clients s) (sym ends) (clients_killed cs count has refl refl refl)
]
