-- ===== src/Client/Start/Home.antt =====
-- The start of a seat's client in src/daemon/entrance.c, and the client's home directory.
use entrance.Client.{Client}
use entrance.Client.Start.{
  exe_del, exe_error, exe_data, HomeCall, opened, closed, locked, unlocked, chowned, ran, Starter,
  StarterSystem, client_runs, client_command,
}
use entrance.Common.{ℕ, ◌≡◌, true, List, [], ◌∷◌, ◌++◌, none, some, Str, Slot, get_elem?, set}

-- The seat has a client.
abbrev pub HasClient : ℕ → Starter → Type 0
HasClient id s = (c : Client) × (get_elem? s.clients id ≡ some (Slot.live c))

-- What is done with the directory while it is locked: nothing, or the command, perhaps after a change of
-- the owner.
pub data InHome (cmd : Str) : List HomeCall → Type 0 where
  nothing : InHome cmd []
  command : InHome cmd (ran cmd ∷ [])
  owner_and_command : {uid gid : ℕ} → InHome cmd (ran cmd ∷ chowned uid gid ∷ [])

record Inside (cmd : Str) (id : ℕ) (s t : Starter) : Type 0 where
  done : List HomeCall
  within : InHome cmd done
  calls : t.calls ≡ done ++ s.calls
  quit : t.quit ≡ s.quit
  has_client : HasClient id t

-- What the start of a client has done: nothing, when the seat's client runs; the main loop was told to end,
-- with the directory not opened, or closed; or the directory was opened, locked, unlocked and closed.
pub data Started (sys : StarterSystem) (id : ℕ) (display : Str) (s t : Starter) : Type 0 where
  runs_already :
      client_runs (get_elem? s.clients id) ≡ some true → t ≡ s → Started sys id display s t
  not_opened : t.quit ≡ true → t.calls ≡ s.calls → Started sys id display s t
  not_locked : t.quit ≡ true → t.calls ≡ closed ∷ opened ∷ s.calls → Started sys id display s t
  in_directory :
      {done : List HomeCall}
      → InHome (client_command sys id display) done
      → t.calls ≡ closed ∷ unlocked ∷ (done ++ locked ∷ opened ∷ s.calls)
      → t.quit ≡ s.quit
      → Started sys id display s t

module _ (sys : StarterSystem) (id : ℕ) (display : Str) where
  -- The state after the new client and its handlers.
  fresh : Starter → Starter
  fresh s = record s {
    clients = set s.clients id (Slot.live (record { id = id; pid = 0; exe = none }));
    handlers = (id, exe_data) ∷ (id, exe_error) ∷ (id, exe_del) ∷ s.handlers;
  }
