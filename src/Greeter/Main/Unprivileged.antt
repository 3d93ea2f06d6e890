-- ===== src/Greeter/Main/Unprivileged.antt =====
-- The greeter gives root's rights up before it does anything else: `main` of src/bin/entrance_client.c.
use entrance.Greeter.Main.{
  Options, parsed, MainCall, setgid, setuid, force_runtime_dir, run_loop, timer_del, terminate_self,
  init, shut_down, open_display, show_theme, connect_server, delete_server, handler_added,
  handler_deleted, kill_zero, timer_add, Process, Exit, failure, LoopEvent, disconnected, handled,
  content_asked, timer_fired, pid_of, loop_step, end_loop, MainSystem, ConnectHandler, server_add,
  server_del, server_data, gui, connection, events, eina, ecore, ecore_x, elementary, login, called,
  server_alive_cb, errno_after, loop_event, entrance_connect_del, entrance_monitor_server_pid,
  run_events, add_handler, delete_connection, delete_handlers, entrance_connect_shutdown, allowed,
  ℤ, pos, negsuc, client_id_of, port_of, given_or, entrance_connect, entrance_gui_shutdown,
  shutdown_all, entrance_gui_init, show_gui, run_connected, start_greeter, change_user,
  change_group, greeter_main,
}
use entrance.Common.{
  ℕ, zero, suc, ◌<◌, ◌≡◌, refl, sym, ◌∙◌, ap, ◌⊎◌, inl, inr, Bool, true, false, List, [], ◌∷◌, ◌++◌,
  Str, codes, arith, Bool-cases, Option-cases, Option, none, some, All,
}
use entrance.Greeter.Defs.{Greeter}
use mathlib.Core.List.{append_assoc}

abbrev keeps_identity : MainCall → Bool
keeps_identity (setgid g) = false
keeps_identity (setuid u) = false
keeps_identity _ = true

abbrev Plain : List MainCall → Type 0
Plain calls = All (λ c. keeps_identity c ≡ true) calls

Plain-append : (xs ys : List MainCall) → Plain xs → Plain ys → Plain (xs ++ ys)
Plain-append [] ys a b = b
Plain-append (x ∷ xs) ys a b = (a.0, Plain-append xs ys a.1 b)

-- Calls were added, none of which changes the user or the group.
pub record Extends (before after : List MainCall) : Type 0 where
  pub added : List MainCall
  pub calls : after ≡ added ++ before
  pub plain : Plain added

Extends-refl : {b : List MainCall} → Extends b b
Extends-refl = record { added = []; calls = refl; plain = tt }

Extends-trans : {a b c : List MainCall} → Extends a b → Extends b c → Extends a c
Extends-trans {a} {b} {c} e f = record {
  added = f.added ++ e.added;
  calls = f.calls ∙ ap (λ l. f.added ++ l) e.calls ∙ sym (append_assoc f.added e.added a);
  plain = Plain-append f.added e.added f.plain e.plain;
}

also :
    (c : MainCall) {a b : List MainCall} → keeps_identity c ≡ true → Extends a b → Extends a (c ∷ b)
also c k e = record { added = c ∷ e.added; calls = ap (◌∷◌ c) e.calls; plain = (k, e.plain) }

loop_event-Extends : (e : LoopEvent) (s : Process) → Extends s.calls (loop_event e s).calls
unfolding loop_event entrance_connect_del entrance_monitor_server_pid server_alive_cb called
loop_event-Extends disconnected s = Extends-refl
loop_event-Extends (handled e) s = elim (Option-cases (pid_of e)) [
  | inl n ↦ rw (n, loop_event) Extends-refl
  | inr (p, h) ↦ rw (h, loop_event) (also (timer_add p) refl Extends-refl)
]
loop_event-Extends (content_asked back) s = Extends-refl
loop_event-Extends (timer_fired killed) s = elim (Bool-cases (errno_after killed s.esrch)) [
  | inl y ↦ rw y (also terminate_self refl (also (kill_zero s.server_pid) refl Extends-refl))
  | inr n ↦ rw n (also (kill_zero s.server_pid) refl Extends-refl)
]

delete_handlers-Extends :
    (hs : List ConnectHandler) (s : Process) → Extends s.calls (delete_handlers hs s).calls
unfolding delete_handlers called
delete_handlers-Extends [] s = Extends-refl
delete_handlers-Extends (h ∷ hs) s =
    Extends-trans (also (handler_deleted h) refl Extends-refl)
      (delete_handlers-Extends hs (called (handler_deleted h) s))

delete_connection-Extends : (s : Process) → Extends s.calls (delete_connection s).calls
unfolding delete_connection called
delete_connection-Extends s = elim (Bool-cases s.server) [
  | inl y ↦ rw y (also delete_server refl Extends-refl)
  | inr n ↦ rw n Extends-refl
]

entrance_connect_shutdown-Extends :
    (s : Process) → Extends s.calls (entrance_connect_shutdown s).calls
unfolding entrance_connect_shutdown called
entrance_connect_shutdown-Extends s =
    let t = delete_connection s in
    also (shut_down connection) refl (
      also (shut_down events) refl
        (Extends-trans (delete_connection-Extends s) (delete_handlers-Extends t.handlers t)))

module _ (sys : MainSystem) where
  entrance_gui_shutdown-Extends :
      (s : Process) → Extends s.calls (entrance_gui_shutdown sys s).calls
  unfolding entrance_gui_shutdown called
  entrance_gui_shutdown-Extends s = elim (Bool-cases s.has_gui) [
    | inl y ↦ rw y (also (shut_down gui) refl Extends-refl)
    | inr n ↦ rw n Extends-refl
  ]

  shutdown_all-Extends : (s : Process) → Extends s.calls (shutdown_all sys s).calls
  unfolding shutdown_all called
  shutdown_all-Extends s =
      let t = called timer_del s in
      also (shut_down eina) refl (
        also (shut_down ecore) refl (
          also (shut_down ecore_x) refl (
            also (shut_down elementary) refl (
              also (shut_down login) refl (
                Extends-trans (also timer_del refl Extends-refl) (
                  Extends-trans (entrance_connect_shutdown-Extends t)
                    (entrance_gui_shutdown-Extends (entrance_connect_shutdown t))))))))

  run_events-Extends :
      (es : List LoopEvent) (g : Greeter) (s : Process)
      → Extends s.calls (run_events sys es g s).1.calls
  unfolding run_events
  run_events-Extends [] g s = Extends-refl
  run_events-Extends (e ∷ es) g s =
      by_step (λ h. run_events-Extends es h (loop_event e s)) (loop_step sys e g)
    where
      by_step :
          ((h : Greeter)
            → Extends (loop_event e s).calls (run_events sys es h (loop_event e s)).1.calls)
          → (o : Option (Unit {0} × Greeter))
          → Extends s.calls
              (elim o as (λ _. Bool × Process) [
                | none ↦ (false, s)
                | some (u, h) ↦ run_events sys es h (loop_event e s)
              ]).1.calls
      by_step rest none = Extends-refl
      by_step rest (some (u, h)) = Extends-trans (loop_event-Extends e s) (rest h)

  end_loop-Extends : (b : Bool × Process) → Extends b.1.calls (end_loop sys b).1.calls
  end_loop-Extends (false, s) = Extends-refl
  end_loop-Extends (true, s) = shutdown_all-Extends s

  show_gui-Extends : (n : ℕ × Process) → Extends n.1.calls (show_gui sys n).1.calls
  unfolding show_gui called
  show_gui-Extends (zero, s) = Extends-refl
  show_gui-Extends (suc n, s) = Extends-trans (also run_loop refl Extends-refl) (
      Extends-trans (run_events-Extends sys.loop sys.greeter (called run_loop s))
        (end_loop-Extends (run_events sys sys.loop sys.greeter (called run_loop s))))

  connected-Extends :
      (theme : Str) (b : Bool × Process) → Extends b.1.calls (run_connected sys theme b).1.calls
  unfolding run_connected entrance_gui_init called
  connected-Extends theme (false, s) = shutdown_all-Extends s
  connected-Extends theme (true, s) =
      Extends-trans (also (init gui) refl (also (show_theme theme) refl Extends-refl))
        (show_gui-Extends (entrance_gui_init sys theme s))

  entrance_connect-Extends :
      (id port : ℕ) (s : Process) → Extends s.calls (entrance_connect sys id port s).1.calls
  unfolding entrance_connect called add_handler
  entrance_connect-Extends id port s =
      let asked =
        also (connect_server port) refl
          (also (init events) refl (also (init connection) refl (Extends-refl {b = s.calls}))) in
      elim (Bool-cases
        (sys.answer (init events ∷ init connection ∷ s.calls) (connect_server port))) [
          | inl y ↦ rw y (
              also (handler_added server_data) refl
                (also (handler_added server_del) refl (also (handler_added server_add) refl asked)))
          | inr n ↦ rw n asked
        ]

  start_greeter-Extends :
      (o : Options) (s : Process) → Extends s.calls (start_greeter sys o s).1.calls
  unfolding start_greeter called
  start_greeter-Extends o s =
      let display = given_or o.display (codes ":0") in
      let begun =
        also (init ecore) refl
          (also (init eina) refl (also force_runtime_dir refl (Extends-refl {b = s.calls}))) in
      let t = called (init ecore) (called (init eina) (called force_runtime_dir s)) in
      let v =
        called (init login)
          (called (init elementary) (called (init ecore_x) (called (open_display display) t))) in
      let opened = also (open_display display) refl begun in
      let theme = given_or o.theme (codes "default") in
      elim (Bool-cases (sys.answer t.calls (open_display display))) [
        | inl y ↦ rw y (
            Extends-trans
              (also (init login) refl
                (also (init elementary) refl (also (init ecore_x) refl opened)))
              (Extends-trans (entrance_connect-Extends (client_id_of o.id) (port_of o.port) v) (
                connected-Extends theme
                  (entrance_connect sys (client_id_of o.id) (port_of o.port) v))))
        | inr n ↦ rw n opened
      ]

  -- How the program ends that was asked for a group and a user: a request is refused, or both are
  -- granted, in this order.
  abbrev pub Dropped : ℕ → ℕ → Process → Exit × Process → Type 0
  Dropped g u s (e, t) =
      ((e ≡ failure) × ((t.calls ≡ setgid g ∷ s.calls) × (sys.answer s.calls (setgid g) ≡ false)))
      ⊎ (((e ≡ failure)
            × ((t.calls ≡ setuid u ∷ setgid g ∷ s.calls)
                × (sys.answer (setgid g ∷ s.calls) (setuid u) ≡ false)))
          ⊎ ((sys.answer s.calls (setgid g) ≡ true)
              × ((sys.answer (setgid g ∷ s.calls) (setuid u) ≡ true)
                  × Extends (setuid u ∷ setgid g ∷ s.calls) t.calls)))

  allowed-pos : (n : ℤ) → 0 < allowed n
  unfolding allowed
  allowed-pos (pos zero) = omega arith
  allowed-pos (pos (suc n)) = omega arith
  allowed-pos (negsuc n) = omega arith

  change_group-Dropped :
      (o : Options) (s : Process) → Dropped (allowed o.gid) (allowed o.uid) s (change_group sys o s)
  unfolding change_group change_user called
  change_group-Dropped o s = elim (Bool-cases (sys.answer s.calls (setgid (allowed o.gid)))) [
    | inr n ↦ rw n (inl (refl, (refl, refl)))
    | inl y ↦
        elim (Bool-cases (sys.answer (setgid (allowed o.gid) ∷ s.calls) (setuid (allowed o.uid)))) [
          | inr n ↦ rw (y, n) (inr (inl (refl, (refl, refl))))
          | inl z ↦
              rw (y, z)
                (inr (
                  inr (
                    refl,
                    (
                      refl,
                      start_greeter-Extends o
                          (called (setuid (allowed o.uid)) (called (setgid (allowed o.gid)) s)),
                    ),
                  )))
        ]
  ]

  -- Whatever the options are and the system answers, the first requests of the greeter's program are for
  -- the allowed group and then the allowed user of its options, neither of which is root's; it goes on
  -- only when both are granted, and asks for no other group or user after them. When one is refused it
  -- ends at once, with a failure.
  pub greeter_main-Dropped :
      (o : Options) (s : Process)
      → (0 < allowed o.gid)
        × ((0 < allowed o.uid)
            × Dropped (allowed o.gid) (allowed o.uid) s (greeter_main sys (parsed o) s))
  unfolding greeter_main
  greeter_main-Dropped o s = (allowed-pos o.gid, (allowed-pos o.uid, change_group-Dropped o s))
