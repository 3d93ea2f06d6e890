-- ===== src/Xserver.antt =====
-- src/daemon/entrance_xserver.c: the X server of each seat, and the arguments with which it is started.
pub mod Args
pub mod Seats
use entrance.Common.{
  ℕ, zero, suc, ◌+◌, Bool, true, false, List, [], ◌∷◌, ◌++◌, Option, none, some, Str, codes,
  truncate, decimal, M, ◌>>=◌, ◌>>◌, ret, get, modify, deref, Slot, slot_get, get_elem?, set,
  replicate, length, if◌then◌else◌,
}

pub record Xserver : Type 0 where
  pub vt : ℕ
  pub id : ℕ
  pub display : Str

-- `xservers` is the array; `forked` the answers of `fork` to the daemon, the newest first, where none is
-- a failure; `clients` the clients that were started, with their displays.
pub record Xservers : Type 0 where
  pub xservers : List (Slot Xserver)
  pub xserver_count : ℕ
  pub forked : List (Option ℕ)
  pub display_env : Option Str
  pub clients : List (ℕ × Str)

-- The configuration's command, with the words that `strtok_r` finds in `xinit_args`.
pub record Xinit : Type 0 where
  pub xinit_path : Str
  pub xinit_args : List Str

-- The loop that writes a word at each index from `i` on, for `n` indices.
unfoldable pub fill_args : ℕ → ℕ → List Str → List (Option Str) → List (Option Str)
fill_args zero i tokens args = args
fill_args (suc n) i [] args = fill_args n (suc i) [] args
fill_args (suc n) i (token ∷ tokens) args = fill_args n (suc i) tokens (set args i (some token))

unfoldable pub first_args : Xinit → Xserver → List (Option Str) → List (Option Str)
unfolding decimal
first_args conf x args =
    set
      (set
        (set
          (set (set args 0 (some (truncate 4096 conf.xinit_path))) 1 (some (truncate 64 x.display)))
          2 (some (codes "-seat")))
        3 (some (truncate 64 (codes "seat" ++ decimal x.id))))
      4 (some (truncate 64 (codes "vt" ++ decimal x.vt)))

-- The array for `execv`, where none is NULL.
unfoldable pub xserver_args : Xinit → Xserver → List (Option Str)
unfolding fill_args first_args
xserver_args conf x = elim conf.xinit_args [
  | [] ↦ set (replicate 2 none) 0 (some (truncate 4096 conf.xinit_path))
  | token ∷ tokens ↦
      let num_token = length (token ∷ tokens) + 6 in
      set
        (fill_args (length (token ∷ tokens) + 1) 5 (token ∷ tokens)
          (first_args conf x (replicate num_token none)))
        (length (token ∷ tokens) + 5) none
]

unfoldable pub entrance_xservers_init : ℕ → M Xservers (Unit {0})
entrance_xservers_init count =
    modify λ s. record s { xservers = replicate count Slot.null; xserver_count = count }

-- A write of the array; out of range it is a fault.
abbrev write_slot : Option (Slot Xserver) → ℕ → Slot Xserver → M Xservers (Unit {0})
write_slot none id x s = none
write_slot (some old) id x s = some (tt, record s { xservers = set s.xservers id x })

module _ (fork : ℕ → Option ℕ) (auto_login : Bool) where
  -- The daemon's half of `_xserver_start`.
  unfoldable pub xserver_start : Xserver → M Xservers (Option ℕ)
  xserver_start x = do modify (λ s. record s { forked = fork x.id ∷ s.forked }); ret (fork x.id)

  unfoldable pub entrance_xserver_start : ℕ → Str → ℕ → M Xservers (Option ℕ)
  unfolding xserver_start
  entrance_xserver_start id display vt = do
    s ← get
    write_slot (get_elem? s.xservers id) id
        (Slot.live (record { vt = vt; id = id; display = display }))
    xserver_start (record { vt = vt; id = id; display = display })

  -- The handler of SIGUSR1, by which an X server says that it is ready.
  unfoldable pub xserver_started : ℕ → M Xservers (Unit {0})
  xserver_started id = do
    s ← get
    x ← deref (slot_get s.xservers id)
    modify (λ t. record t { display_env = some x.display })
    if auto_login then ret tt else modify (λ t. record t { clients = (id, x.display) ∷ t.clients })

  unfoldable pub entrance_xserver_shutdown : ℕ → M Xservers (Unit {0})
  entrance_xserver_shutdown id = do
    s ← get
    x ← deref (slot_get s.xservers id)
    write_slot (get_elem? s.xservers id) id Slot.freed

  unfoldable pub entrance_xservers_shutdown : M Xservers (Unit {0})
  entrance_xservers_shutdown = modify λ s. record s { xservers = []; xserver_count = 0 }
