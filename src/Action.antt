-- ===== src/Action.antt =====
-- src/daemon/entrance_action.c: the actions that a client may ask for. Running a command is a
-- parameter: it yields a process handle, or NULL.
pub mod Requests
use entrance.Common.{
  ℕ, zero, suc, ◌+◌, ◌%◌, Bool, true, false, ◌&&◌, leb, List, [], ◌∷◌, ◌++◌, Option, none, some,
  Str, codes, truncate, if◌then◌else◌, get_elem?, length, ◌==◌, ◌≡◌,
}

pub data ActionFunc : Type 0 where
  shutdown reboot suspend : ActionFunc

pub record ActionData : Type 0 where
  pub id : ℕ
  pub label : Str
  pub icon : Str
  pub func : ActionFunc

-- What the client is sent of an action.
pub record Action : Type 0 where
  pub id : ℕ
  pub label : Str
  pub icon : Str

-- `launched` holds the commands run so far, newest first; `quit` is whether the main loop ends.
pub record Actions : Type 0 where
  pub actions : List ActionData
  pub action_exe : Option ℕ
  pub launched : List Str
  pub quit : Bool

pub record ActionCommands : Type 0 where
  pub shutdown : Str
  pub reboot : Str
  pub suspend : Str

-- `tolower` of an ASCII letter.
abbrev lower : ℕ → ℕ
lower c = if leb b'A' c && leb c b'Z' then c + 32 else c

-- Index 7 is the first character of the label.
lower_at : ℕ → Str → Str
lower_at n [] = []
lower_at zero (c ∷ cs) = lower c ∷ cs
lower_at (suc n) (c ∷ cs) = c ∷ lower_at n cs

unfoldable pub entrance_action_add : List ActionData → Str → ActionFunc → ActionData
unfolding lower_at
entrance_action_add actions label func = record {
  id = length actions % 256;
  label = label;
  icon = lower_at 7 (truncate 128 (codes "system-" ++ label));
  func = func;
}

unfoldable pub append_action : List ActionData → Str → ActionFunc → List ActionData
unfolding entrance_action_add
append_action actions label func = actions ++ entrance_action_add actions label func ∷ []

unfoldable pub entrance_action_init : List ActionData → List ActionData
unfolding append_action
entrance_action_init actions =
    append_action
      (append_action (append_action actions (codes "Shutdown") shutdown) (codes "Reboot") reboot)
      (codes "Suspend") suspend

unfoldable pub entrance_action_get : List ActionData → List Action
entrance_action_get [] = []
entrance_action_get (ead ∷ actions) =
    record { id = ead.id; label = ead.label; icon = ead.icon } ∷ entrance_action_get actions

unfoldable pub entrance_action_shutdown : Actions → Actions
entrance_action_shutdown s = record s { actions = [] }

module _ (cmd : ActionCommands) (exe_run : List Str → Str → Option ℕ) where
  abbrev pub command_of : ActionFunc → Str
  command_of shutdown = cmd.shutdown
  command_of reboot = cmd.reboot
  command_of suspend = cmd.suspend

  -- The handle is kept of the commands that end the machine.
  abbrev kept_exe : ActionFunc → Option ℕ → Option ℕ
  kept_exe suspend exe = none
  kept_exe _ exe = exe

  unfoldable pub run_func : Actions → ActionFunc → Actions
  run_func s f = record s {
    action_exe = kept_exe f (exe_run s.launched (command_of f));
    launched = command_of f ∷ s.launched;
  }

  unfoldable pub entrance_action_run : Actions → ℕ → Actions
  unfolding run_func
  entrance_action_run s action = elim (get_elem? s.actions action) [
    | none ↦ s
    | some ead ↦ run_func s ead.func
  ]

-- A process has ended: is it that of the action? The result is whether the event is done with.
unfoldable pub entrance_action_exe_event_del_cb : Actions → Option ℕ → Actions × Bool
entrance_action_exe_event_del_cb s none = (s, false)
entrance_action_exe_event_del_cb s (some exe) = elim s.action_exe [
  | none ↦ (s, false)
  | some a ↦ if exe == a then (record s { quit = true }, true) else (s, false)
]

-- What the daemon's loop does to the actions: a client's request, or the end of a process.
pub data ActionEvent : Type 0 where
  requested : ℕ → ActionEvent
  exe_del : Option ℕ → ActionEvent

unfoldable pub action_step :
    ActionCommands → (List Str → Str → Option ℕ) → Actions → ActionEvent → Actions
unfolding entrance_action_run entrance_action_exe_event_del_cb
action_step cmd exe_run s (requested action) = entrance_action_run cmd exe_run s action
action_step cmd exe_run s (exe_del exe) = (entrance_action_exe_event_del_cb s exe).0

unfoldable pub action_steps :
    ActionCommands → (List Str → Str → Option ℕ) → Actions → List ActionEvent → Actions
unfolding action_step
action_steps cmd exe_run s [] = s
action_steps cmd exe_run s (e ∷ es) = action_steps cmd exe_run (action_step cmd exe_run s e) es
