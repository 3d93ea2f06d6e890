-- ===== src/Xserver/Seats.antt =====
-- The life of a seat's X server in src/daemon/entrance_xserver.c.
use entrance.Xserver.{
  Xserver, Xservers, xserver_start, entrance_xserver_start, xserver_started,
  entrance_xserver_shutdown,
}
use entrance.Common.{
  ℕ, ◌≡◌, refl, ◌∙◌, Bool, true, false, ◌∷◌, Option, none, some, Str, arith, Slot, slot_get,
  get_elem?, set, if◌then◌else◌, get_elem?-set-some, get_elem?-set_ne, SameElsewhere,
}

-- What is left of a seat whose X server was shut down: another shutdown and a late signal are faults.
pub record Ended (fork : ℕ → Option ℕ) (auto_login : Bool) (id : ℕ) (s : Xservers) : Type 0 where
  pub slot : get_elem? s.xservers id ≡ some Slot.freed
  pub shutdown_faults : entrance_xserver_shutdown fork auto_login id s ≡ none
  pub signal_faults : xserver_started fork auto_login id s ≡ none

-- The state after the start, the signal and the shutdown.
abbrev pub started_at : (ℕ → Option ℕ) → ℕ → Str → ℕ → Xservers → Xservers
started_at fork id display vt s = record s {
  xservers = set s.xservers id (Slot.live (record { vt = vt; id = id; display = display }));
  forked = fork id ∷ s.forked;
}

abbrev ready_at : Bool → ℕ → Str → Xservers → Xservers
ready_at auto_login id display s = record s {
  display_env = some display;
  clients = if auto_login then s.clients else (id, display) ∷ s.clients;
}

abbrev pub freed_at : ℕ → Xservers → Xservers
freed_at id s = record s { xservers = set s.xservers id Slot.freed }

pub start-run :
    (fork : ℕ → Option ℕ) (auto_login : Bool) (id : ℕ) (display : Str) (vt : ℕ) (s : Xservers)
    (old : Slot Xserver)
    → get_elem? s.xservers id ≡ some old
    → entrance_xserver_start fork auto_login id display vt s
      ≡ some (fork id, started_at fork id display vt s)
unfolding entrance_xserver_start xserver_start
start-run fork auto_login id display vt s old e = ground arith

signal-run :
    (fork : ℕ → Option ℕ) (auto_login : Bool) (id : ℕ) (x : Xserver) (s : Xservers)
    → get_elem? s.xservers id ≡ some (Slot.live x)
    → xserver_started fork auto_login id s ≡ some (tt, ready_at auto_login id x.display s)
unfolding xserver_started slot_get
signal-run fork true id x s e = ground arith
signal-run fork false id x s e = ground arith

pub shutdown-run :
    (fork : ℕ → Option ℕ) (auto_login : Bool) (id : ℕ) (x : Xserver) (s : Xservers)
    → get_elem? s.xservers id ≡ some (Slot.live x)
    → entrance_xserver_shutdown fork auto_login id s ≡ some (tt, freed_at id s)
unfolding entrance_xserver_shutdown slot_get
shutdown-run fork auto_login id x s e = ground arith

freed-Ended :
    (fork : ℕ → Option ℕ) (auto_login : Bool) (id : ℕ) (s : Xservers)
    → get_elem? s.xservers id ≡ some Slot.freed
    → Ended fork auto_login id s
unfolding entrance_xserver_shutdown xserver_started slot_get
freed-Ended fork auto_login id s e = record {
  slot = e;
  shutdown_faults = ground arith;
  signal_faults = ground arith;
}

-- At a seat of the array, the start of an X server answers the pid of the fork. When the X server says that
-- it is ready, its display becomes the daemon's, and the seat's client is started on it, except with
-- automatic login. The shutdown then frees it, once: a second shutdown or a late signal is a fault. The
-- other seats keep theirs.
pub entrance_xserver_lem :
    (fork : ℕ → Option ℕ) (auto_login : Bool) (id : ℕ) (display : Str) (vt : ℕ) (s : Xservers)
    (old : Slot Xserver)
    → get_elem? s.xservers id ≡ some old
    → (t : Xservers) × (u : Xservers) × (v : Xservers) × (entrance_xserver_start fork auto_login id
          display vt s
        ≡ some (fork id, t))
      × (xserver_started fork auto_login id t ≡ some (tt, u))
      × (u.display_env ≡ some display)
      × (u.clients ≡ (if auto_login then s.clients else (id, display) ∷ s.clients))
      × (entrance_xserver_shutdown fork auto_login id u ≡ some (tt, v))
      × Ended fork auto_login id v
      × SameElsewhere id s.xservers v.xservers
entrance_xserver_lem fork auto_login id display vt s old e =
    let x : Xserver = record { vt = vt; id = id; display = display } in
    let t = started_at fork id display vt s in
    let u = ready_at auto_login id display t in
    let at : get_elem? t.xservers id ≡ some (Slot.live x) =
      get_elem?-set-some s.xservers id (Slot.live x) e in
    (
      t,
      u,
      freed_at id u,
      start-run fork auto_login id display vt s old e,
      signal-run fork auto_login id x t at,
      refl,
      refl,
      shutdown-run fork auto_login id x u at,
      freed-Ended fork auto_login id (freed_at id u)
          (get_elem?-set-some t.xservers id Slot.freed at),
      λ j ne.
          get_elem?-set_ne t.xservers id j Slot.freed ne
          ∙ get_elem?-set_ne s.xservers id j (Slot.live x) ne,
    )
