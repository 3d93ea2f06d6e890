-- ===== src/Greeter/Main/Stopped.antt =====
-- The greeter shuts down what it started: `main` of src/bin/entrance_client.c.
use entrance.Greeter.Main.{
  Options, Exit, parsed, MainCall, force_runtime_dir, run_loop, timer_del, init, shut_down,
  open_display, show_theme, connect_server, handler_deleted, Process, success, LoopEvent,
  disconnected, handled, content_asked, timer_fired, pid_of, loop_step, end_loop, MainSystem,
  ConnectHandler, Part, gui, eina, ecore, ecore_x, elementary, login, connection, events, called,
  server_alive_cb, errno_after, loop_event, entrance_connect_del, entrance_monitor_server_pid,
  run_events, add_handler, delete_connection, delete_handlers, entrance_connect_shutdown, allowed,
  client_id_of, port_of, given_or, entrance_connect, entrance_gui_shutdown, shutdown_all,
  entrance_gui_init, gui_screens, show_gui, run_connected, start_greeter, change_user, change_group,
  greeter_main, setgid, setuid,
}
use entrance.Greeter.Defs.{Greeter}
use entrance.Common.{
  ℕ, zero, suc, ◌+◌, ◌≡◌, refl, sym, ◌∙◌, ap, subst, inl, inr, Bool, true, false, List, [], ◌∷◌,
  Str, codes, arith, Bool-cases, Option-cases, Option, none, some, if◌then◌else◌, ◌==◌,
}

abbrev part_id : Part → ℕ
part_id eina = 0
part_id ecore = 1
part_id ecore_x = 2
part_id elementary = 3
part_id login = 4
part_id connection = 5
part_id events = 6
part_id gui = 7

abbrev is_part : Part → Part → ℕ
is_part p q = if part_id p == part_id q then 1 else 0

-- How often a part was started, and how often it was shut down.
unfoldable pub starts_of : Part → List MainCall → ℕ
starts_of p [] = 0
starts_of p (init q ∷ calls) = is_part p q + starts_of p calls
starts_of p (_ ∷ calls) = starts_of p calls

unfoldable pub stops_of : Part → List MainCall → ℕ
stops_of p [] = 0
stops_of p (shut_down q ∷ calls) = is_part p q + stops_of p calls
stops_of p (_ ∷ calls) = stops_of p calls

-- What a step leaves as it was.
record Kept (p : Part) (s t : Process) : Type 0 where
  starts : starts_of p t.calls ≡ starts_of p s.calls
  stops : stops_of p t.calls ≡ stops_of p s.calls
  gui : t.has_gui ≡ s.has_gui

Kept-trans : {p : Part} {s t u : Process} → Kept p s t → Kept p t u → Kept p s u
Kept-trans a b = record {
  starts = b.starts ∙ a.starts;
  stops = b.stops ∙ a.stops;
  gui = b.gui ∙ a.gui;
}

module _ (p : Part) where
  loop_event-Kept : (e : LoopEvent) (s : Process) → Kept p s (loop_event e s)
  unfolding loop_event entrance_connect_del entrance_monitor_server_pid server_alive_cb called
      starts_of stops_of
  loop_event-Kept disconnected s = record { starts = refl; stops = refl; gui = refl }
  loop_event-Kept (handled e) s = elim (Option-cases (pid_of e)) [
    | inl n ↦ rw (n, loop_event) (record { starts = refl; stops = refl; gui = refl })
    | inr (q, h) ↦ rw (h, loop_event) (record { starts = refl; stops = refl; gui = refl })
  ]
  loop_event-Kept (content_asked back) s = record { starts = refl; stops = refl; gui = refl }
  loop_event-Kept (timer_fired killed) s = elim (Bool-cases (errno_after killed s.esrch)) [
    | inl y ↦ rw y (record { starts = refl; stops = refl; gui = refl })
    | inr n ↦ rw n (record { starts = refl; stops = refl; gui = refl })
  ]

  run_events-Kept :
      (sys : MainSystem) (es : List LoopEvent) (g : Greeter) (s : Process)
      → Kept p s (run_events sys es g s).1
  unfolding run_events
  run_events-Kept sys [] g s = record { starts = refl; stops = refl; gui = refl }
  run_events-Kept sys (e ∷ es) g s =
      by_step (λ h. run_events-Kept sys es h (loop_event e s)) (loop_step sys e g)
    where
      by_step :
          ((h : Greeter) → Kept p (loop_event e s) (run_events sys es h (loop_event e s)).1)
          → (o : Option (Unit {0} × Greeter))
          → Kept p s
              (elim o as (λ _. Bool × Process) [
                | none ↦ (false, s)
                | some (u, h) ↦ run_events sys es h (loop_event e s)
              ]).1
      by_step rest none = record { starts = refl; stops = refl; gui = refl }
      by_step rest (some (u, h)) = Kept-trans (loop_event-Kept e s) (rest h)

  delete_handlers-Kept : (hs : List ConnectHandler) (s : Process) → Kept p s (delete_handlers hs s)
  unfolding delete_handlers called starts_of stops_of
  delete_handlers-Kept [] s = record { starts = refl; stops = refl; gui = refl }
  delete_handlers-Kept (h ∷ hs) s =
      let k = delete_handlers-Kept hs (called (handler_deleted h) s) in
      record { starts = k.starts; stops = k.stops; gui = k.gui }

  delete_connection-Kept : (s : Process) → Kept p s (delete_connection s)
  unfolding delete_connection called starts_of stops_of
  delete_connection-Kept s = elim (Bool-cases s.server) [
    | inl y ↦ rw y (record { starts = refl; stops = refl; gui = refl })
    | inr n ↦ rw n (record { starts = refl; stops = refl; gui = refl })
  ]

  disconnect-Kept :
      (s : Process)
      → Kept p s (delete_handlers (delete_connection s).handlers (delete_connection s))
  disconnect-Kept s =
      Kept-trans (delete_connection-Kept s) (delete_handlers-Kept _ (delete_connection s))

abbrev gui_part : Part → Bool → ℕ
gui_part p true = is_part p gui
gui_part p false = 0

-- How often a part is among the libraries, without the windows.
abbrev library : Part → ℕ
library p =
    is_part p eina
    + (is_part p ecore
        + (is_part p ecore_x
            + (is_part p elementary
                + (is_part p login + (is_part p connection + is_part p events)))))

-- A step that starts or shuts down these many.
record Moves (p : Part) (starts stops : ℕ) (s t : Process) : Type 0 where
  started : starts_of p t.calls ≡ starts + starts_of p s.calls
  stopped : stops_of p t.calls ≡ stops + stops_of p s.calls

connect_shutdown-Moves :
    (p : Part) (s : Process)
    → Moves p 0 (is_part p connection + is_part p events) s (entrance_connect_shutdown s)
      × ((entrance_connect_shutdown s).has_gui ≡ s.has_gui)
unfolding entrance_connect_shutdown called starts_of stops_of
connect_shutdown-Moves p s =
    let k = disconnect-Kept p s in
    (record { started = omega (arith, k.starts); stopped = omega (arith, k.stops) }, k.gui)

module _ (sys : MainSystem) where
  gui_shutdown-Moves :
      (p : Part) (s : Process) → Moves p 0 (gui_part p s.has_gui) s (entrance_gui_shutdown sys s)
  unfolding entrance_gui_shutdown called starts_of stops_of
  gui_shutdown-Moves p s = elim (Bool-cases s.has_gui) [
    | inl y ↦ rw y (record { started = omega arith; stopped = omega arith })
    | inr n ↦ rw n (record { started = omega arith; stopped = omega arith })
  ]

  shutdown_all-Moves :
      (p : Part) (s : Process) → Moves p 0 (gui_part p s.has_gui + library p) s (shutdown_all sys s)
  unfolding shutdown_all called starts_of stops_of
  shutdown_all-Moves p s =
      let (c, same) = connect_shutdown-Moves p (called timer_del s) in
      let g = gui_shutdown-Moves p (entrance_connect_shutdown (called timer_del s)) in
      let same_part : gui_part p (entrance_connect_shutdown (called timer_del s)).has_gui
          ≡ gui_part p s.has_gui =
        ap (gui_part p) same in
      record {
        started = omega (arith, c.started, g.started);
        stopped = omega (arith, c.stopped, g.stopped, same_part);
      }

  delete_handlers_none :
      (hs : List ConnectHandler) (s : Process) → (delete_handlers hs s).handlers ≡ []
  unfolding delete_handlers
  delete_handlers_none [] s = refl
  delete_handlers_none (h ∷ hs) s = delete_handlers_none hs (called (handler_deleted h) s)

  gui_shutdown-handlers : (s : Process) → (entrance_gui_shutdown sys s).handlers ≡ s.handlers
  unfolding entrance_gui_shutdown called
  gui_shutdown-handlers s = elim (Bool-cases s.has_gui) [ inl y ↦ rw y refl | inr n ↦ rw n refl ]

  shutdown_all-handlers : (s : Process) → (shutdown_all sys s).handlers ≡ []
  unfolding shutdown_all entrance_connect_shutdown called
  shutdown_all-handlers s =
      let t = delete_connection (called timer_del s) in
      gui_shutdown-handlers (entrance_connect_shutdown (called timer_del s))
      ∙ delete_handlers_none t.handlers t

  connect-Moves :
      (p : Part) (id port : ℕ) (s : Process)
      → Moves p (is_part p connection + is_part p events) 0 s (entrance_connect sys id port s).1
        × ((entrance_connect sys id port s).1.has_gui ≡ s.has_gui)
  unfolding entrance_connect add_handler called starts_of stops_of
  connect-Moves p id port s =
      elim (Bool-cases
        (sys.answer (init events ∷ init connection ∷ s.calls) (connect_server port))) [
          | inl y ↦ rw y (record { started = omega arith; stopped = omega arith }, refl)
          | inr n ↦ rw n (record { started = omega arith; stopped = omega arith }, refl)
        ]

  -- The state in which every part is shut down as often as it was started, and no handler is left.
  abbrev pub AllStopped : Process → Type 0
  AllStopped t = ((p : Part) → starts_of p t.calls ≡ stops_of p t.calls) × (t.handlers ≡ [])

  -- From a state in which all libraries, and no windows, are started once.
  abbrev Started : Process → Type 0
  Started s =
      (s.has_gui ≡ false) × ((p : Part) → (starts_of p s.calls ≡ library p + stops_of p s.calls))

  gui_screens-pos : (n : ℕ) × (gui_screens sys ≡ suc n)
  unfolding gui_screens
  gui_screens-pos = by_count sys.xinerama_screens
    where
      by_count : (k : ℕ) → (n : ℕ) × ((if k == 0 then 1 else k) ≡ suc n)
      by_count zero = (0, refl)
      by_count (suc k) = (k, ground arith)

  -- The events are handled one after the other without a fault.
  unfoldable pub comes_back : List LoopEvent → Greeter → Bool
  comes_back [] g = true
  comes_back (e ∷ es) g = elim (loop_step sys e g) [ none ↦ false | some (u, h) ↦ comes_back es h ]

  run_events-back :
      (es : List LoopEvent) (g : Greeter) (s : Process)
      → (run_events sys es g s).0 ≡ comes_back es g
  unfolding run_events comes_back
  run_events-back [] g s = refl
  run_events-back (e ∷ es) g s =
      by_step (λ h. run_events-back es h (loop_event e s)) (loop_step sys e g)
    where
      by_step :
          ((h : Greeter) → (run_events sys es h (loop_event e s)).0 ≡ comes_back es h)
          → (o : Option (Unit {0} × Greeter))
          → (elim o as (λ _. Bool × Process) [
            | none ↦ (false, s)
            | some (u, h) ↦ run_events sys es h (loop_event e s)
          ]).0
            ≡ (elim o as (λ _. Bool) [ none ↦ false | some (u, h) ↦ comes_back es h ])
      by_step rest none = refl
      by_step rest (some (u, h)) = rest h

  end_loop-back :
      (b : Bool × Process) → b.0 ≡ true → end_loop sys b ≡ (success, shutdown_all sys b.1)
  end_loop-back (true, s) e = refl
  end_loop-back (false, s) e = cc

  show_gui_stops :
      (n : ℕ) (s : Process)
      → comes_back sys.loop sys.greeter ≡ true
      → s.has_gui ≡ true
      → ((p : Part) → starts_of p s.calls ≡ is_part p gui + library p + stops_of p s.calls)
      → ((show_gui sys (suc n, s)).0 ≡ success) × AllStopped (show_gui sys (suc n, s)).1
  unfolding show_gui called starts_of stops_of
  show_gui_stops n s back g h =
      let t = called run_loop s in
      let b = run_events sys sys.loop sys.greeter t in
      let u = b.1 in
      let same : u.has_gui ≡ true = (run_events-Kept eina sys sys.loop sys.greeter t).gui ∙ g in
      let ended : end_loop sys b ≡ (success, shutdown_all sys u) =
        end_loop-back b (run_events-back sys.loop sys.greeter t ∙ back) in
      subst (λ (r : Exit × Process). (r.0 ≡ success) × AllStopped r.1) (sym ended)
        (
          refl,
          (
            λ p.
                let k = run_events-Kept p sys sys.loop sys.greeter t in
                let m = shutdown_all-Moves p u in
                let part : gui_part p u.has_gui ≡ is_part p gui = ap (gui_part p) same in
                omega (arith, h p, k.starts, k.stops, m.started, m.stopped, part),
            shutdown_all-handlers u,
          ),
        )

  connected_stops :
      (theme : Str) (b : Bool × Process)
      → comes_back sys.loop sys.greeter ≡ true
      → Started b.1
      → ((run_connected sys theme b).0 ≡ success) × AllStopped (run_connected sys theme b).1
  unfolding run_connected entrance_gui_init called starts_of stops_of
  connected_stops theme (false, s) back (g, h) = (
    refl,
    (
      λ p.
          let m = shutdown_all-Moves p s in
          let part : gui_part p s.has_gui ≡ 0 = ap (gui_part p) g in
          omega (arith, h p, m.started, m.stopped, part),
      shutdown_all-handlers s,
    ),
  )
  connected_stops theme (true, s) back (g, h) =
      let (n, e) = gui_screens-pos in
      let t = record (called (init gui) (called (show_theme theme) s)) { has_gui = true } in
      subst (λ k. ((show_gui sys (k, t)).0 ≡ success) × AllStopped (show_gui sys (k, t)).1) (sym e)
        (show_gui_stops n t back refl (λ p. omega (arith, h p)))

  -- From a state in which nothing was called: the display is opened or the program fails.
  start_greeter_stops :
      (o : Options) (s : Process)
      → comes_back sys.loop sys.greeter ≡ true
      → s.has_gui ≡ false
      → ((p : Part) → starts_of p s.calls ≡ stops_of p s.calls)
      → (sys.answer
            (init ecore ∷ init eina ∷ force_runtime_dir ∷ s.calls)
            (open_display (given_or o.display (codes ":0")))
          ≡ true)
      → ((start_greeter sys o s).0 ≡ success) × AllStopped (start_greeter sys o s).1
  unfolding start_greeter called starts_of stops_of
  start_greeter_stops o s back g h y =
      let display = given_or o.display (codes ":0") in
      let t = called (init ecore) (called (init eina) (called force_runtime_dir s)) in
      let v =
        called (init login)
          (called (init elementary) (called (init ecore_x) (called (open_display display) t))) in
      let theme = given_or o.theme (codes "default") in
      let id = client_id_of o.id in
      rw y (
        connected_stops theme (entrance_connect sys id (port_of o.port) v) back (
          (connect-Moves eina id (port_of o.port) v).1 ∙ g,
          λ p.
              let m = (connect-Moves p id (port_of o.port) v).0 in
              omega (arith, h p, m.started, m.stopped),
        ))

  -- The state of a program that has called nothing.
  abbrev pub Fresh : Process → Type 0
  Fresh s = (s.calls ≡ []) × (s.has_gui ≡ false)

  -- What has to be granted: the group, the user, and then the display.
  abbrev pub Granted : Options → Type 0
  Granted o =
      let ids = setuid (allowed o.uid) ∷ setgid (allowed o.gid) ∷ [] in
      (sys.answer [] (setgid (allowed o.gid)) ≡ true)
      × ((sys.answer (setgid (allowed o.gid) ∷ []) (setuid (allowed o.uid)) ≡ true)
          × (sys.answer (init ecore ∷ init eina ∷ force_runtime_dir ∷ ids)
                (open_display (given_or o.display (codes ":0")))
              ≡ true))

  -- When a fresh greeter is granted its group, its user and its display, and each event of its main loop is
  -- handled without a fault, it ends with success, whether or not the daemon can be reached: every library
  -- and part, its windows among them, was then shut down exactly as often as it was started, and no handler
  -- of the connection's events is left.
  pub greeter_main_stops :
      (o : Options) (s : Process)
      → Fresh s
      → Granted o
      → comes_back sys.loop sys.greeter ≡ true
      → ((greeter_main sys (parsed o) s).0 ≡ success) × AllStopped (greeter_main sys (parsed o) s).1
  unfolding greeter_main change_group change_user called starts_of stops_of
  greeter_main_stops o s (c, g) (a, (b, d)) back =
      let ids = setuid (allowed o.uid) ∷ setgid (allowed o.gid) ∷ [] in
      let t = called (setuid (allowed o.uid)) (called (setgid (allowed o.gid)) s) in
      let d' =
        subst
          (λ l.
            sys.answer
              (init ecore
                ∷ init eina
                ∷ force_runtime_dir
                ∷ setuid (allowed o.uid)
                ∷ setgid (allowed o.gid)
                ∷ l)
              (open_display (given_or o.display (codes ":0")))
            ≡ true)
          (sym c) d in
      let a' = subst (λ l. sys.answer l (setgid (allowed o.gid)) ≡ true) (sym c) a in
      let b' =
        subst (λ l. sys.answer (setgid (allowed o.gid) ∷ l) (setuid (allowed o.uid)) ≡ true) (sym c)
          b in
      rw (a', b')
        (start_greeter_stops o t back g (λ p. ap (starts_of p) c ∙ sym (ap (stops_of p) c)) d')
