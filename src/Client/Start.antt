-- ===== src/Client/Start.antt =====
-- src/daemon/entrance.c: the start of a seat's client, and the signal that ends the daemon.
pub mod Home
use entrance.Client.{Client}
use entrance.Common.{
  ℕ, zero, suc, Bool, true, false, not, ◌&&◌, ◌||◌, ◌==◌, List, [], ◌∷◌, ◌++◌, Option, none, some,
  Str, codes, truncate, decimal, M, ◌>>=◌, ◌>>◌, ret, get, modify, deref, Slot, slot_get, get_elem?,
  set, if◌then◌else◌, is_some,
}

-- The event handlers of a client.
pub data Handler : Type 0 where
  exe_del exe_error exe_data : Handler

-- What is done with the client's home directory and the seat's client, the newest call first.
pub data HomeCall : Type 0 where
  opened closed locked unlocked : HomeCall
  chowned : ℕ → ℕ → HomeCall
  ran : Str → HomeCall

-- `handlers` are those that were registered, with their seats.
pub record Starter : Type 0 where
  pub clients : List (Slot Client)
  pub handlers : List (ℕ × Handler)
  pub calls : List HomeCall
  pub quit : Bool

-- `open_fd` is what `open` answers a descriptor, where none is a failure; `fstat` the owner; `exe_run` the handle of the
-- process and its pid. The texts are the directory, the user, which may be NULL, and the parts of the
-- command.
pub record StarterSystem : Type 0 where
  pub open_fd : Option ℕ
  pub flock : Bool
  pub fstat : Option (ℕ × ℕ)
  pub exe_run : Str → Option (ℕ × ℕ)
  pub home_path : Str
  pub user : Str
  pub lib_dir : Str
  pub bin_dir : Str
  pub session_login : Option Str
  pub theme : Str
  pub port : ℕ
  pub gid : ℕ
  pub uid : ℕ

abbrev call : HomeCall → M Starter (Unit {0})
call c = modify λ s. record s { calls = c ∷ s.calls }

abbrev or_empty : Option Str → Str
or_empty none = []
or_empty (some s) = s

abbrev write_client : Option (Slot Client) → ℕ → Client → M Starter (Unit {0})
write_client none id c s = none
write_client (some old) id c s = some (tt, record s { clients = set s.clients id (Slot.live c) })

-- `_entrance_clients[id] && _entrance_clients[id]->exe`; an index out of range, or freed memory, is a fault.
unfoldable pub client_runs : Option (Slot Client) → Option Bool
client_runs none = none
client_runs (some Slot.null) = some false
client_runs (some Slot.freed) = none
client_runs (some (Slot.live c)) = some (is_some c.exe)

module _ (sys : StarterSystem) where
  unfoldable pub client_command : ℕ → Str → Str
  unfolding decimal
  client_command id display = truncate 4096 (
      codes "export HOME='"
      ++ sys.home_path
      ++ codes "'; export USER='"
      ++ sys.user
      ++ codes "';export LD_LIBRARY_PATH='"
      ++ sys.lib_dir
      ++ codes "';"
      ++ or_empty sys.session_login
      ++ codes " "
      ++ sys.bin_dir
      ++ codes "/entrance_client -d '"
      ++ display
      ++ codes "' -t '"
      ++ sys.theme
      ++ codes "' -g "
      ++ decimal sys.gid
      ++ codes " -u "
      ++ decimal sys.uid
      ++ codes " -i "
      ++ decimal id
      ++ codes " -p "
      ++ decimal sys.port)

  -- The owner of the directory is changed when it is not the client's user.
  unfoldable pub chown_home : ℕ × ℕ → M Starter (Unit {0})
  chown_home (uid, gid) =
      if uid == sys.uid && gid == sys.gid then ret tt else call (chowned sys.uid sys.gid)

  unfoldable pub exec_client : ℕ → Str → M Starter (Unit {0})
  unfolding client_command
  exec_client id display = do
    call (ran (client_command id display))
    s ← get
    write_client (get_elem? s.clients id) id (elim (sys.exe_run (client_command id display)) [
      | none ↦ record { id = id; pid = 0; exe = none }
      | some (exe, pid) ↦ record { id = id; pid = pid; exe = some exe }
    ])

  unfoldable pub run_in_home : ℕ → Str → M Starter (Unit {0})
  unfolding chown_home exec_client
  run_in_home id display = elim sys.fstat [
    | none ↦ ret tt
    | some owner ↦ (chown_home owner >> exec_client id display)
  ]

  -- With the directory open.
  unfoldable pub lock_home : ℕ → Str → M Starter (Unit {0})
  unfolding run_in_home
  lock_home id display =
      if sys.flock
      then (do call locked; run_in_home id display; call unlocked; call closed)
      else (do call closed; modify (λ s. record s { quit = true }))

  -- The descriptor 0 counts as a failure, and stays open.
  unfoldable pub open_home : Option ℕ → ℕ → Str → M Starter (Unit {0})
  unfolding lock_home
  open_home none id display = modify λ s. record s { quit = true }
  open_home (some zero) id display = do call opened; modify (λ s. record s { quit = true })
  open_home (some (suc fd)) id display = do call opened; lock_home id display

  unfoldable pub start_client : ℕ → Str → M Starter (Unit {0})
  unfolding open_home client_runs
  start_client id display = do
    s ← get
    runs ← deref (client_runs (get_elem? s.clients id))
    if runs then ret tt else (do
      write_client (get_elem? s.clients id) id (record { id = id; pid = 0; exe = none })
      modify (λ t. record t {
        handlers = (id, exe_data) ∷ (id, exe_error) ∷ (id, exe_del) ∷ t.handlers;
      })
      open_home sys.open_fd id display)
