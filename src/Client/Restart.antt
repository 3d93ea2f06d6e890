-- ===== src/Client/Restart.antt =====
-- `_entrance_client_del` of src/daemon/entrance.c: what becomes of a seat when its client ends.
use entrance.Session.Defs.{Session, Seats, cookie_of, entrance_session_shutdown}
use entrance.Session.Seat.{started, start_eq}
use entrance.Client.{
  Client, SeatSystem, start_seat, Tick, WaitEnd, signalled, still_waiting, session_wait, Supervisor,
  Call, xserver_shutdown, xserver_start, handlers_del, kill_and_wait, main_loop_quit, done,
  entrance_client_del, shutdown_seats,
}
use entrance.Common.{
  ℕ, zero, suc, ◌+◌, ◌<◌, ◌≡◌, refl, ◌≢◌, subst, ◌∙◌, true, false, List, ◌∷◌, Option, none, some,
  Slot, slot_get, slot_set, set, get_elem?, arith, get_elem?-set-some, get_elem?-set_ne,
}

module _ (sys : SeatSystem) (s : Supervisor) (id exe : ℕ) (client : Client) (p : Session)
    (live : slot_get s.clients id ≡ some client) (own : client.exe ≡ some exe)
    (at_seat : get_elem? s.seats.sessions id ≡ some (Slot.live p)) where
  -- The seat after its session was freed.
  abbrev pub freed_seats : Seats
  freed_seats = record (s.seats) { sessions = set s.seats.sessions id Slot.freed }

  leave_eq :
      (ticks : List Tick)
      → session_wait ticks id s.seats ≡ some (signalled, s.seats)
      → entrance_client_del sys ticks id exe s
        ≡ some (
          done,
          record s {
            clients = slot_set s.clients id (record client { exe = none });
            seats = freed_seats;
            signal = true;
            calls = main_loop_quit ∷ s.calls;
          },
        )
  unfolding entrance_client_del entrance_session_shutdown
  leave_eq ticks w = ground arith

  abbrev cleared : Supervisor
  cleared = record s { clients = slot_set s.clients id (record client { exe = none }) }

  -- The calls up to the start of the X server.
  abbrev pub calls_of : ℕ → List Call
  calls_of xpid =
      xserver_start id ∷ handlers_del id ∷ kill_and_wait xpid ∷ xserver_shutdown id ∷ s.calls

  -- What the random device yields for the seat's new session, and the session.
  abbrev pub rounds_of : ℕ → List (Option ℕ × ℕ)
  rounds_of xpid =
      sys.random (handlers_del id ∷ kill_and_wait xpid ∷ xserver_shutdown id ∷ s.calls) id

  abbrev pub fresh : ℕ → Session
  fresh xpid = started sys.strdup (rounds_of xpid) (sys.display id) (sys.vtnr + id)

  abbrev pub fresh_seats : ℕ → Seats
  fresh_seats xpid = record freed_seats {
    sessions = set (set s.seats.sessions id Slot.freed) id (Slot.live (fresh xpid));
  }

  restart_eq :
      (ticks : List Tick) (ended : WaitEnd) (xpid : ℕ)
      → ended ≢ still_waiting
      → ended ≢ signalled
      → session_wait ticks id s.seats ≡ some (ended, s.seats)
      → s.signal ≡ false
      → s.xephyr ≡ false
      → get_elem? s.xserver_pids id ≡ some xpid
      → entrance_client_del sys ticks id exe s
        ≡ some (
          done,
          record s {
            clients = set (slot_set s.clients id (record client { exe = none })) id Slot.null;
            seats = fresh_seats xpid;
            xserver_pids = set s.xserver_pids id (sys.xserver (calls_of xpid) id);
            signal = false;
            calls = calls_of xpid;
          },
        )
  unfolding entrance_client_del entrance_session_shutdown start_seat
  restart_eq ticks still_waiting xpid n m w h x q = absurd (n refl)
  restart_eq ticks signalled xpid n m w h x q = absurd (m refl)
  restart_eq ticks _ xpid n m w h x q =
      let again =
        start_eq sys.strdup (rounds_of xpid) id (sys.display id) (sys.vtnr + id) freed_seats
          Slot.freed (get_elem?-set-some s.seats.sessions id Slot.freed at_seat) in
      ground arith

-- A freed session among those that `main` shuts down.
shutdown_seats_freed :
    (id d count : ℕ) (t : Seats)
    → d < count
    → get_elem? t.sessions (id + d) ≡ some Slot.freed
    → shutdown_seats id count t ≡ none
unfolding shutdown_seats entrance_session_shutdown
shutdown_seats_freed id d zero t h e = absurd (omega arith)
shutdown_seats_freed id zero (suc count) t h e =
    let here : get_elem? t.sessions id ≡ some Slot.freed =
      subst (λ n. get_elem? t.sessions n ≡ some Slot.freed) (omega arith) e in
    ground arith
shutdown_seats_freed id (suc d) (suc count) t h e =
    let there : get_elem? t.sessions (suc id + d) ≡ some Slot.freed =
      subst (λ n. get_elem? t.sessions n ≡ some Slot.freed) (omega arith) e in
    by_slot (get_elem? t.sessions id) refl
      (shutdown_seats_freed (suc id) d count t (omega arith) there)
      (shutdown_seats_freed (suc id) d count (record t { sessions = set t.sessions id Slot.freed })
        (omega arith)
        (get_elem?-set_ne t.sessions id (suc id + d) Slot.freed (λ q. omega arith) ∙ there))
  where
    by_slot :
        (o : Option (Slot Session))
        → get_elem? t.sessions id ≡ o
        → shutdown_seats (suc id) count t ≡ none
        → shutdown_seats (suc id) count (record t { sessions = set t.sessions id Slot.freed })
          ≡ none
        → shutdown_seats id (suc count) t ≡ none
    by_slot none q unshut shut = ground arith
    by_slot (some Slot.null) q unshut shut = ground arith
    by_slot (some Slot.freed) q unshut shut = ground arith
    by_slot (some (Slot.live p)) q unshut shut = ground arith

module _ (sys : SeatSystem) (s : Supervisor) (id exe : ℕ) (client : Client) (p : Session)
    (live : slot_get s.clients id ≡ some client) (own : client.exe ≡ some exe)
    (at_seat : get_elem? s.seats.sessions id ≡ some (Slot.live p)) where
  -- The end of a seat's client, when the wait for the user's session ended without a signal and the
  -- daemon does not run under Xephyr: the X server is shut down, waited for and started again, its new
  -- process is recorded, and the client's entry is NULL. The seat's session is replaced by a fresh one, with
  -- a cookie of its own, no login and no process, on the seat's display and virtual terminal; every other
  -- seat keeps its session.
  pub entrance_client_del_restarts :
      (ticks : List Tick) (ended : WaitEnd) (xpid j : ℕ)
      → ended ≢ still_waiting
      → ended ≢ signalled
      → session_wait ticks id s.seats ≡ some (ended, s.seats)
      → s.signal ≡ false
      → s.xephyr ≡ false
      → get_elem? s.xserver_pids id ≡ some xpid
      → id ≢ j
      → (t : Supervisor) × (entrance_client_del sys ticks id exe s ≡ some (done, t))
        × (t.calls
            ≡ xserver_start id
              ∷ handlers_del id
              ∷ kill_and_wait xpid
              ∷ xserver_shutdown id
              ∷ s.calls)
        × (get_elem? t.clients id ≡ some Slot.null)
        × (get_elem? t.xserver_pids id ≡ some (sys.xserver t.calls id))
        × (get_elem? t.seats.sessions id
            ≡ some (
                Slot.live (record {
                  pid = 0;
                  vt = sys.vtnr + id;
                  login = none;
                  mcookie = some (
                      cookie_of (
                        sys.random
                          (handlers_del id ∷ kill_and_wait xpid ∷ xserver_shutdown id ∷ s.calls)
                          id));
                  display = sys.strdup (sys.display id);
                })))
        × (get_elem? t.seats.sessions j ≡ get_elem? s.seats.sessions j)
  unfolding slot_get slot_set
  entrance_client_del_restarts ticks ended xpid j n m w h x q other =
      let clients = slot_set s.clients id (record client { exe = none }) in
      let freed = set s.seats.sessions id Slot.freed in
      let new = fresh sys s id exe client p live own at_seat xpid in
      let slot : get_elem? s.clients id ≡ some (Slot.live client) =
        live_slot (get_elem? s.clients id) refl in
      (
        _,
        restart_eq sys s id exe client p live own at_seat ticks ended xpid n m w h x q,
        refl,
        get_elem?-set-some clients id Slot.null
            (get_elem?-set-some s.clients id (Slot.live (record client { exe = none })) slot),
        get_elem?-set-some s.xserver_pids id
            (sys.xserver (calls_of sys s id exe client p live own at_seat xpid) id) q,
        get_elem?-set-some freed id (Slot.live new)
            (get_elem?-set-some s.seats.sessions id Slot.freed at_seat),
        get_elem?-set_ne freed id j (Slot.live new) other
            ∙ get_elem?-set_ne s.seats.sessions id j Slot.freed other,
      )
    where
      live_slot :
          (o : Option (Slot Client)) → get_elem? s.clients id ≡ o → o ≡ some (Slot.live client)
      live_slot none e = ground arith
      live_slot (some Slot.null) e = ground arith
      live_slot (some Slot.freed) e = ground arith
      live_slot (some (Slot.live c)) e = ground arith

  -- The end of a seat's client, when a signal ended the wait for the user's session: the handler frees
  -- the seat's session and leaves the main loop, and the loop over the seats at the end of `main`, if it
  -- reaches the seat, is a fault: it frees the session again.
  pub entrance_client_del_leaves :
      (ticks : List Tick) (count : ℕ)
      → session_wait ticks id s.seats ≡ some (signalled, s.seats)
      → id < count
      → (t : Supervisor) × (entrance_client_del sys ticks id exe s ≡ some (done, t))
        × (t.calls ≡ main_loop_quit ∷ s.calls)
        × (shutdown_seats 0 count t.seats ≡ none)
  entrance_client_del_leaves ticks count w h = (
    _,
    leave_eq sys s id exe client p live own at_seat ticks w,
    refl,
    shutdown_seats_freed 0 id count _ h (
        subst (λ n. get_elem? (set s.seats.sessions id Slot.freed) n ≡ some Slot.freed)
          (omega arith) (get_elem?-set-some s.seats.sessions id Slot.freed at_seat)),
  )
