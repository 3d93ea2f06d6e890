-- ===== src/Server/Trace.antt =====
-- Sequences of events that src/daemon/entrance_server.c handles: what they start.
use mathlib.Core.List.{Memᴰ}
use entrance.Action.{ActionData, command_of}
use entrance.Server.Defs.{System, Config, Daemon, Launch}
use entrance.Server.Launches.{Starts, StartedFor}
use entrance.Server.Login.{ClientEvent, auth, action, entrance_server_read_cb, read_all}
use entrance.Server.Starts.{Effect, unchanged, command_run, started, entrance_server_read_cb-Effect}
use entrance.Common.{
  ◌≡◌, refl, sym, subst, ◌⊎◌, inl, inr, List, [], ◌∷◌, Option, some, Str, arith, ℕ, Option-cases,
  ap, get_elem?,
}

-- A session's process, or the command of an action.
pub data ClientProcess : Type 0 where
  session_process : Launch → ClientProcess
  action_command : Str → ClientProcess

-- The processes that the daemon has started.
abbrev pub StartedIn : ClientProcess → Daemon → Type 0
StartedIn (session_process l) s = Memᴰ l s.launched
StartedIn (action_command c) s = Memᴰ c s.actions.launched

-- A process that an event among `events` asked for, when these are the actions.
pub data AskedFor (sys : System) (cfg : Config) (actions : List ActionData)
    (events : List ClientEvent) : ClientProcess → Type 0 where
  by_auth :
      {id : ℕ} {login password : Str} {session : Option Str} {l : Launch}
      → Memᴰ (auth id login password session) events
      → StartedFor sys id session l
      → AskedFor sys cfg actions events (session_process l)
  by_action :
      {a : ℕ} {c : Str} (ead : ActionData)
      → Memᴰ (action a) events
      → get_elem? actions a ≡ some ead
      → c ≡ command_of cfg.actions sys.exe_run ead.func
      → AskedFor sys cfg actions events (action_command c)

module _ (sys : System) (cfg : Config) where
  later_AskedFor :
      (actions : List ActionData) (ev : ClientEvent) (events : List ClientEvent) (p : ClientProcess)
      → AskedFor sys cfg actions events p
      → AskedFor sys cfg actions (ev ∷ events) p
  later_AskedFor actions ev events _ (by_auth m for_it) = by_auth (Memᴰ.tail m) for_it
  later_AskedFor actions ev events _ (by_action ead m at_a is) = by_action ead (Memᴰ.tail m) at_a is

  kept_actions :
      (ev : ClientEvent) (s t : Daemon)
      → Effect sys cfg s t ev
      → t.actions.actions ≡ s.actions.actions
  kept_actions ev s t (unchanged idle same) = ap (λ (x : Starts). x.1.actions) same
  kept_actions _ s t (command_run ead at_a launched same new) = same
  kept_actions _ s t (started l more for_it ok) = ap (λ (x : Starts). x.1.actions) more

  -- What a process that has been started was before an event, or why it was started by the event.
  one_event :
      (ev : ClientEvent) (events : List ClientEvent) (s t : Daemon) (p : ClientProcess)
      → Effect sys cfg s t ev
      → StartedIn p t
      → StartedIn p s ⊎ AskedFor sys cfg s.actions.actions (ev ∷ events) p
  one_event ev events s t (session_process l) (unchanged idle same) m =
      inl (subst (Memᴰ l) (ap (λ (x : Starts). x.0) same) m)
  one_event ev events s t (action_command c) (unchanged idle same) m =
      inl (subst (Memᴰ c) (ap (λ (x : Starts). x.1.launched) same) m)
  one_event _ events s t (session_process l) (command_run ead at_a same kept new) m =
      inl (subst (Memᴰ l) same m)
  one_event _ events s t (action_command c) (command_run {a} ead at_a same kept new) m =
      newest (subst (Memᴰ c) new m)
    where
      newest :
          Memᴰ c (command_of cfg.actions sys.exe_run ead.func ∷ s.actions.launched)
          → Memᴰ c s.actions.launched
            ⊎ AskedFor sys cfg s.actions.actions (action a ∷ events) (action_command c)
      newest (Memᴰ.tail n) = inl n
      newest (Memᴰ.head e) = inr (by_action ead (Memᴰ.head refl) at_a e)
  one_event _ events s t (action_command c) (started l more for_it ok) m =
      inl (subst (Memᴰ c) (ap (λ (x : Starts). x.1.launched) more) m)
  one_event _ events s t (session_process l)
        (started {id} {login} {password} {session} new more for_it ok) m =
      newest (subst (Memᴰ l) (ap (λ (x : Starts). x.0) more) m)
    where
      newest :
          Memᴰ l (new ∷ s.launched)
          → Memᴰ l s.launched
            ⊎ AskedFor sys cfg s.actions.actions
                (auth id login password session ∷ events)
                (session_process l)
      newest (Memᴰ.tail n) = inl n
      newest (Memᴰ.head e) =
          inr (by_auth (Memᴰ.head refl) (subst (StartedFor sys id session) (sym e) for_it))

  -- After any sequence of clients' events, each process that the daemon has started for its clients was
  -- started before them, or was asked for among them: a session by an authentication event, for the event's
  -- seat and session and as a user of the password database, or a command by an action event, as the
  -- command of the action with that number.
  pub read_all-AskedFor :
      (events : List ClientEvent) (s t : Daemon) (p : ClientProcess)
      → read_all sys cfg events s ≡ some (tt, t)
      → StartedIn p t
      → StartedIn p s ⊎ AskedFor sys cfg s.actions.actions events p
  unfolding read_all
  read_all-AskedFor [] s t p e m =
      let same : s ≡ t = ground arith in inl (subst (StartedIn p) (sym same) m)
  read_all-AskedFor (ev ∷ events) s t p e m =
      elim (Option-cases (entrance_server_read_cb sys cfg ev s)) [
        | inl fault ↦ ground arith
        | inr ((tt, u), first) ↦
            let f = entrance_server_read_cb-Effect sys cfg ev s u first in
            elim (read_all-AskedFor events u t p (ground arith) m) [
              | inl earlier ↦ one_event ev events s u p f earlier
              | inr a ↦ inr (
                  later_AskedFor s.actions.actions ev events p
                    (subst (λ x. AskedFor sys cfg x events p) (kept_actions ev s u f) a))
            ]
      ]
