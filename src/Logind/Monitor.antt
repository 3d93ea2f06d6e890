-- ===== src/Logind/Monitor.antt =====
-- The life of logind's monitor: src/daemon/entrance_logind.c.
use entrance.Logind.{
  Monitoring, MonitorSystem, watch, entrance_logind_monitor_start, logind_monitor_cb, fd_readable,
  fd_events, delete_handler, unref_monitor, entrance_logind_monitor_stop,
}
use entrance.Common.{
  ℕ, suc, ◌+◌, ◌≡◌, refl, ap, ◌∙◌, Bool, true, false, ◌&&◌, List, [], ◌∷◌, Option, none, some, M,
  ◌>>◌, Slot, arith, length, if◌then◌else◌,
}

-- The variables before the start.
abbrev pub unwatched : Monitoring
unwatched = record {
  monitor = Slot.null;
  handler = Slot.null;
  callback = false;
  unreferenced = 0;
  noticed = 0;
}

abbrev watching : ℕ → Slot (Unit {0}) → Monitoring
watching n h = record {
  monitor = Slot.live tt;
  handler = h;
  callback = true;
  unreferenced = 0;
  noticed = n;
}

-- With the events up to the first flush that fails added to a count.
abbrev flushes : List Bool → ℕ → ℕ
flushes [] n = n
flushes (false ∷ events) n = n
flushes (true ∷ events) n = flushes events (suc n)

abbrev pub all_flushed : List Bool → Bool
all_flushed [] = true
all_flushed (b ∷ events) = b && all_flushed events

abbrev handler_after : Bool → Slot (Unit {0})
handler_after true = Slot.live tt
handler_after false = Slot.freed

fd_events_freed :
    (events : List Bool) (n : ℕ)
    → fd_events events (watching n Slot.freed) ≡ some (tt, watching n Slot.freed)
unfolding fd_events fd_readable
fd_events_freed [] n = refl
fd_events_freed (b ∷ events) n = fd_events_freed events n

fd_events-watching :
    (events : List Bool) (n : ℕ)
    → fd_events events (watching n (Slot.live tt))
      ≡ some (tt, watching (flushes events n) (handler_after (all_flushed events)))
unfolding fd_events fd_readable logind_monitor_cb
fd_events-watching [] n = refl
fd_events-watching (true ∷ events) n = fd_events-watching events (suc n)
fd_events-watching (false ∷ events) n = fd_events_freed events n

-- What the stop after these events does.
abbrev pub stopped : List Bool → Option (Unit {0} × Monitoring)
stopped events =
    if all_flushed events then some (tt, record unwatched { noticed = length events }) else none

stop_after :
    (b : Bool) (n : ℕ)
    → entrance_logind_monitor_stop (watching n (handler_after b))
      ≡ (if b then some (tt, record unwatched { noticed = n }) else none)
unfolding entrance_logind_monitor_stop delete_handler unref_monitor
stop_after true n = refl
stop_after false n = refl

flushes-all :
    (events : List Bool) (n : ℕ) → all_flushed events ≡ true → flushes events n ≡ length events + n
flushes-all [] n h = omega arith
flushes-all (true ∷ events) n h = omega (arith, flushes-all events (suc n) h)
flushes-all (false ∷ events) n h = cc

stopped_after :
    (events : List Bool) (b : Bool)
    → all_flushed events ≡ b
    → (if b then some (tt, record unwatched { noticed = flushes events 0 }) else none)
      ≡ stopped events
stopped_after events true h =
    rw h (
      ap (λ n. some (tt, record unwatched { noticed = n })) (omega (arith, flushes-all events 0 h)))
stopped_after events false h = rw h refl

-- A step that is known to end in a state.
bind :
    (m k : M Monitoring (Unit {0})) (s : Monitoring) {t : Monitoring}
    → m s ≡ some (tt, t)
    → (m >> k) s ≡ k t
bind m k s e = ap (λ o. elim o [ none ↦ none | some (a, u) ↦ k u ]) e

watched :
    (events : List Bool)
    → (fd_events events >> entrance_logind_monitor_stop) (watching 0 (Slot.live tt))
      ≡ stopped events
watched events =
    let ran = fd_events-watching events 0 in
    let stop = stop_after (all_flushed events) (flushes events 0) in
    let end_ = stopped_after events (all_flushed events) refl in
    bind (fd_events events) entrance_logind_monitor_stop (watching 0 (Slot.live tt)) ran
    ∙ stop
    ∙ end_

-- How the watch goes from its start: it is refused, and then no monitor and no handler is there; or it is
-- made, and then the events and the stop after them leave nothing alive, with the callback called for
-- each event; but after a flush that failed the stop is a fault, since the handler was freed with it.
abbrev pub Watch : List Bool → Bool × Monitoring → Type 0
Watch events (false, s) = (s.monitor ≡ Slot.null) × ((s.handler ≡ Slot.null) × (s.unreferenced ≡ 0))
Watch events (true, s) = (fd_events events >> entrance_logind_monitor_stop) s ≡ stopped events

-- Whatever the system answers: a start of the monitor that is refused leaves no monitor and no handler;
-- and after one that succeeds, any events and the stop leave nothing alive, with the callback called once
-- for each event, unless the flush of an event failed: then the stop is a fault.
pub monitor_start-Watch :
    (sys : MonitorSystem) (events : List Bool)
    → Watch events (entrance_logind_monitor_start sys unwatched)
unfolding entrance_logind_monitor_start watch
monitor_start-Watch sys events =
    by_answers sys.monitor_new sys.get_fd sys.fd_handler_add refl refl refl
  where
    by_answers :
        (a b c : Bool)
        → sys.monitor_new ≡ a
        → sys.get_fd ≡ b
        → sys.fd_handler_add ≡ c
        → Watch events (entrance_logind_monitor_start sys unwatched)
    by_answers false b c p q r = rw p (refl, (refl, refl))
    by_answers true false c p q r = rw (p, q) (refl, (refl, refl))
    by_answers true true false p q r = rw (p, q, r) (refl, (refl, refl))
    by_answers true true true p q r = rw (p, q, r) (watched events)
