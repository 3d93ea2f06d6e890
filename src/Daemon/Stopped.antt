-- ===== src/Daemon/Stopped.antt =====
-- The daemon ends what it started: `main` of src/daemon/entrance.c.
use entrance.Daemon.Main.{
  DaemonPart, eina, ecore, eet, efreet, configuration, log, logind_monitor, xservers, sessions,
  clients, pams, history, keyboard, actions, server, DaemonCall, init, shut_down, main_loop,
  DaemonState, DaemonSystem, noted, init_user, init_monitor, seats_by, init_seats, after_autologin,
  run_autologin, init_server, stop_monitor, end_xservers, end_sessions, seats_of, all_return,
  completed, session_shutdown, end_main, run_main, open_log, with_lock, take_lock, start_main,
  entrance_main, with_options,
}
use entrance.Daemon.{entrance_autologin_lock_get}
use entrance.Daemon.Guards.{configure-runs}
use entrance.Lock.{entrance_lock_get, entrance_lock_remove}
use entrance.Config.{EntranceConfig}
use entrance.Common.{
  ℕ, zero, suc, ◌+◌, ◌≡◌, refl, ◌∙◌, ap, inl, inr, Bool, true, false, not, ◌&&◌, List, [], ◌∷◌,
  Option, none, some, Str, arith, Bool-cases, if◌then◌else◌, ◌==◌,
}

abbrev part_id : DaemonPart → ℕ
part_id eina = 0
part_id ecore = 1
part_id eet = 2
part_id efreet = 3
part_id configuration = 4
part_id log = 5
part_id logind_monitor = 6
part_id xservers = 7
part_id sessions = 8
part_id clients = 9
part_id pams = 10
part_id history = 11
part_id keyboard = 12
part_id actions = 13
part_id server = 14

abbrev is_part : DaemonPart → DaemonPart → ℕ
is_part p q = if part_id p == part_id q then 1 else 0

-- How often a part was started, and how often it was ended.
unfoldable pub starts_of : DaemonPart → List DaemonCall → ℕ
starts_of p [] = 0
starts_of p (init q ∷ calls) = is_part p q + starts_of p calls
starts_of p (_ ∷ calls) = starts_of p calls

unfoldable pub stops_of : DaemonPart → List DaemonCall → ℕ
stops_of p [] = 0
stops_of p (shut_down q ∷ calls) = is_part p q + stops_of p calls
stops_of p (_ ∷ calls) = stops_of p calls

-- A step that starts and ends these many, and leaves the choice of Xephyr.
record Moves (p : DaemonPart) (starts stops : ℕ) (s t : DaemonState) : Type 0 where
  started : starts_of p t.calls ≡ starts + starts_of p s.calls
  stopped : stops_of p t.calls ≡ stops + stops_of p s.calls
  xephyr : t.xephyr ≡ s.xephyr

Moves-trans :
    {p : DaemonPart} {a b c d : ℕ} {s t u : DaemonState}
    → Moves p a b s t
    → Moves p c d t u
    → Moves p (c + a) (d + b) s u
Moves-trans {p} {a} {b} {c} {d} m n = record {
  started = omega (arith, m.started, n.started);
  stopped = omega (arith, m.stopped, n.stopped);
  xephyr = n.xephyr ∙ m.xephyr;
}

abbrev when : Bool → ℕ → ℕ
when true n = n
when false n = 0

module _ (sys : DaemonSystem) (p : DaemonPart) where
  init_user-Moves : (s : DaemonState) → Moves p 0 0 s (init_user sys s)
  unfolding init_user
  init_user-Moves s = elim (Bool-cases s.auto_login.enabled) [
    | inl y ↦ rw y (record { started = omega arith; stopped = omega arith; xephyr = refl })
    | inr n ↦ rw n (record { started = omega arith; stopped = omega arith; xephyr = refl })
  ]

  init_monitor-Moves :
      (s : DaemonState)
      → Moves p (when sys.has_monitor (is_part p logind_monitor)) 0 s (init_monitor sys s)
  unfolding init_monitor noted starts_of stops_of
  init_monitor-Moves s = elim (Bool-cases sys.has_monitor) [
    | inl y ↦ rw y (record { started = omega arith; stopped = omega arith; xephyr = refl })
    | inr n ↦ rw n (record { started = omega arith; stopped = omega arith; xephyr = refl })
  ]

  abbrev seats : Bool → ℕ
  seats xephyr =
      when (not xephyr) (is_part p xservers)
      + (is_part p sessions + (is_part p clients + is_part p pams))

  seats_by-Moves :
      (xephyr : Bool) (s : DaemonState) → Moves p (seats xephyr) 0 s (seats_by sys xephyr s)
  unfolding seats_by noted starts_of stops_of
  seats_by-Moves true s = record { started = omega arith; stopped = omega arith; xephyr = refl }
  seats_by-Moves false s = record { started = omega arith; stopped = omega arith; xephyr = refl }

  autologin-Moves :
      (config : EntranceConfig) (s : DaemonState) → Moves p 0 0 s (run_autologin sys config s)
  unfolding run_autologin after_autologin noted starts_of stops_of
  autologin-Moves config s =
      elim (Bool-cases (s.auto_login.enabled && entrance_autologin_lock_get s.auto_login)) [
        | inr n ↦ rw n (record { started = omega arith; stopped = omega arith; xephyr = refl })
        | inl y ↦ elim (Bool-cases sys.signalled) [
          | inl z ↦
              rw (y, z) (record { started = omega arith; stopped = omega arith; xephyr = refl })
          | inr m ↦
              rw (y, m) (record { started = omega arith; stopped = omega arith; xephyr = refl })
        ]
      ]

  -- The user, the monitor, and the seats.
  begun_Moves :
      (s : DaemonState)
      → Moves p
          (seats s.xephyr + when sys.has_monitor (is_part p logind_monitor))
          0
          s
          (init_seats sys (init_monitor sys (init_user sys s)))
  unfolding init_seats
  begun_Moves s =
      let u = init_user-Moves s in
      let m = init_monitor-Moves (init_user sys s) in
      let t = init_monitor sys (init_user sys s) in
      let k = seats_by-Moves t.xephyr t in
      let same : seats t.xephyr ≡ seats s.xephyr = ap seats (m.xephyr ∙ u.xephyr) in
      record {
        started = omega (arith, u.started, m.started, k.started, same);
        stopped = omega (arith, u.stopped, m.stopped, k.stopped);
        xephyr = k.xephyr ∙ (m.xephyr ∙ u.xephyr);
      }

  end_monitor-Moves :
      (s : DaemonState)
      → Moves p 0 (when sys.has_monitor (is_part p logind_monitor)) s (stop_monitor sys s)
  unfolding stop_monitor noted starts_of stops_of
  end_monitor-Moves s = elim (Bool-cases sys.has_monitor) [
    | inl y ↦ rw y (record { started = omega arith; stopped = omega arith; xephyr = refl })
    | inr n ↦ rw n (record { started = omega arith; stopped = omega arith; xephyr = refl })
  ]

  end_xservers-Moves :
      (b : Bool) (s : DaemonState)
      → Moves p 0 (when (not b) (is_part p xservers)) s (end_xservers sys b s)
  unfolding end_xservers noted starts_of stops_of
  end_xservers-Moves true s = record { started = omega arith; stopped = omega arith; xephyr = refl }
  end_xservers-Moves false s = record {
    started = omega arith;
    stopped = omega arith;
    xephyr = refl;
  }

  end_sessions-Moves : (id n : ℕ) (s : DaemonState) → Moves p 0 0 s (end_sessions sys id n s)
  unfolding end_sessions noted starts_of stops_of
  end_sessions-Moves id zero s = record {
    started = omega arith;
    stopped = omega arith;
    xephyr = refl;
  }
  end_sessions-Moves id (suc n) s =
      let m = end_sessions-Moves (suc id) n (noted (session_shutdown id) s) in
      record {
        started = omega (arith, m.started);
        stopped = omega (arith, m.stopped);
        xephyr = m.xephyr;
      }

  -- What the end of `main` stops, beside the monitor and the X servers.
  abbrev others : ℕ
  others =
      is_part p server
      + (is_part p clients
          + (is_part p actions
              + (is_part p history
                  + (is_part p sessions
                      + (is_part p pams
                          + (is_part p ecore
                              + (is_part p configuration
                                  + (is_part p eet + (is_part p log + is_part p efreet)))))))))

  end_main-Moves :
      (s : DaemonState)
      → Moves p 0
          (others
            + (when (not s.xephyr) (is_part p xservers)
                + when sys.has_monitor (is_part p logind_monitor)))
          s
          (end_main sys s)
  unfolding end_main noted starts_of stops_of
  end_main-Moves s =
      let m = end_monitor-Moves s in
      let t = noted (shut_down server) (noted (shut_down clients) (stop_monitor sys s)) in
      let h = noted (shut_down history) (noted (shut_down actions) t) in
      let x = end_xservers-Moves s.xephyr h in
      let z = end_sessions-Moves 0 (seats_of sys s.xephyr) (end_xservers sys s.xephyr h) in
      record {
        started = omega (arith, m.started, x.started, z.started);
        stopped = omega (arith, m.stopped, x.stopped, z.stopped);
        xephyr = z.xephyr ∙ (x.xephyr ∙ m.xephyr);
      }

  run_main-Moves :
      (config : EntranceConfig) (s : DaemonState)
      → starts_of p s.calls
        ≡ is_part p configuration
          + (is_part p ecore
              + (is_part p eet
                  + (is_part p efreet + (is_part p log + (is_part p eina + stops_of p s.calls)))))
      → starts_of p (run_main sys config s).calls
        ≡ is_part p eina + (is_part p keyboard + stops_of p (run_main sys config s).calls)
  unfolding run_main init_server noted starts_of stops_of
  run_main-Moves config s h =
      let t = init_seats sys (init_monitor sys (init_user sys s)) in
      let begun = begun_Moves s in
      let u = noted (init keyboard) (noted (init history) t) in
      let auto = autologin-Moves config u in
      let v = noted main_loop (init_server sys (run_autologin sys config u)) in
      let e = end_main-Moves v in
      let same : when (not v.xephyr) (is_part p xservers)
          ≡ when (not s.xephyr) (is_part p xservers) =
        ap (λ b. when (not b) (is_part p xservers)) (auto.xephyr ∙ begun.xephyr) in
      omega (
        arith, h, begun.started, begun.stopped, auto.started, auto.stopped, e.started, e.stopped,
        same,
      )

module _ (sys : DaemonSystem) where
  end_main-lock : (s : DaemonState) → sys.can_remove_lock ≡ true → (end_main sys s).lock ≡ none
  unfolding end_main noted entrance_lock_remove
  end_main-lock s y = rw y refl

  -- Eina and the keyboard have no end in `main`.
  abbrev pub Ended : DaemonState → Type 0
  Ended t =
      ((p : DaemonPart)
        → starts_of p t.calls ≡ is_part p eina + (is_part p keyboard + stops_of p t.calls))
      × (sys.can_remove_lock ≡ true → t.lock ≡ none)

  sums :
      (p : DaemonPart) (calls : List DaemonCall)
      → calls ≡ init log ∷ init configuration ∷ init efreet ∷ init eet ∷ init ecore ∷ init eina ∷ []
      → starts_of p calls
        ≡ is_part p configuration
          + (is_part p ecore
              + (is_part p eet
                  + (is_part p efreet + (is_part p log + (is_part p eina + stops_of p calls)))))
  unfolding starts_of stops_of
  sums p calls e = rw e (omega arith)

  run_main-Ended :
      (config : EntranceConfig) (s : DaemonState)
      → s.calls
        ≡ init log ∷ init configuration ∷ init efreet ∷ init eet ∷ init ecore ∷ init eina ∷ []
      → Ended (run_main sys config s)
  unfolding run_main
  run_main-Ended config s e =
      (λ p. run_main-Moves sys p config s (sums p s.calls e), end_main-lock _)

  opened :
      (config : EntranceConfig) (s : DaemonState)
      → sys.can_open_log ≡ true
      → open_log sys config s ≡ completed sys (run_main sys config (noted (init log) s))
  unfolding open_log
  opened config s y =
      ap
        (λ b.
          if b
          then completed sys (run_main sys config (noted (init log) s))
          else some (1, noted (shut_down configuration) s))
        y

  take_lock-Ended :
      (config : EntranceConfig) (s : DaemonState) (lock : Option Str)
      → s.calls ≡ init configuration ∷ init efreet ∷ init eet ∷ init ecore ∷ init eina ∷ []
      → entrance_lock_get sys.lock s.lock ≡ (true, lock)
      → sys.can_open_log ≡ true
      → (t : DaemonState) × ((take_lock sys config s ≡ completed sys t) × Ended t)
  unfolding take_lock with_lock open_log noted
  take_lock-Ended config s lock e got opens =
      let t = record s {
        auto_login = record s.auto_login { enabled = config.autologin };
        lock = lock;
      } in
      (
        run_main sys config (noted (init log) t),
        (
          ap (with_lock sys config s) got ∙ opened config t opens,
          run_main-Ended config (noted (init log) t) (ap (◌∷◌ (init log)) e),
        ),
      )

  start_main_stops :
      (s : DaemonState) (x : Bool) (lock : Option Str)
      → s.calls ≡ []
      → entrance_lock_get sys.lock s.lock ≡ (true, lock)
      → sys.can_open_log ≡ true
      → (t : DaemonState) × ((start_main sys x s ≡ completed sys t) × Ended t)
  unfolding start_main noted
  start_main_stops s x lock e got opens =
      let begun = noted (init ecore) (noted (init eina) s) in
      let libraries = noted (init efreet) (noted (init eet) begun) in
      let t = noted (init configuration) (record libraries { xephyr = x }) in
      let (config, (c, found)) = configure-runs sys t in
      let u = record t { configured = c } in
      let base =
        ap (λ l. init configuration ∷ init efreet ∷ init eet ∷ init ecore ∷ init eina ∷ l) e in
      let (v, (run, ended)) = take_lock-Ended config u lock base got opens in
      (v, (found ∙ run, ended))

  root_runs :
      (s : DaemonState) (x : Bool)
      → sys.getuid ≡ 0
      → sys.options ≡ with_options x
      → entrance_main sys s ≡ start_main sys x s
  unfolding entrance_main
  root_runs s x root given = rw (root, given) refl

  -- What `main` calls of its parts, from no calls, when root runs the daemon, with options that it reads,
  -- and it gets its lock and can open the log. If each of its calls comes back, it ends well with those
  -- calls; if one does not, it has no exit status. Among those calls each part that is started, with automatic
  -- login or not, under Xephyr or not, is ended just as often, but for Eina and the keyboard, which are not
  -- ended; and the lock file is gone at the end if it can be removed.
  pub entrance_main_stops :
      (s : DaemonState) (x : Bool) (lock : Option Str)
      → s.calls ≡ []
      → sys.getuid ≡ 0
      → sys.options ≡ with_options x
      → entrance_lock_get sys.lock s.lock ≡ (true, lock)
      → sys.can_open_log ≡ true
      → (t : DaemonState) × ((entrance_main sys s
            ≡ (if all_return sys t.calls then some (0, t) else none))
          × Ended t)
  entrance_main_stops s x lock e root given got opens =
      let (t, (run, ended)) = start_main_stops s x lock e got opens in
      (t, (root_runs s x root given ∙ run, ended))
