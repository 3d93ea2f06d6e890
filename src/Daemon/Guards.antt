-- ===== src/Daemon/Guards.antt =====
-- What holds before the daemon serves anything: `main` of src/daemon/entrance.c.
use entrance.Daemon.Main.{
  DaemonPart, eina, ecore, eet, efreet, configuration, DaemonCall, init, shut_down, DaemonState,
  DaemonSystem, quits, take_lock, with_config, configure,
}
use entrance.Config.{EntranceConfig, Configured}
use entrance.Config.Start.{config_start_total}
use entrance.Lock.{entrance_lock_get}
use entrance.Common.{
  ℕ, ◌≡◌, ◌≢◌, ◌⊎◌, ◌∙◌, ap, Bool, true, false, ◌||◌, List, [], ◌∷◌, Option, none, some, Str,
}

-- The libraries and the configuration, which are there before anything is served.
abbrev is_base : DaemonPart → Bool
is_base eina = true
is_base ecore = true
is_base eet = true
is_base efreet = true
is_base configuration = true
is_base _ = false

abbrev serves_call : DaemonCall → Bool
serves_call (init p) = elim (is_base p) [ true ↦ false | false ↦ true ]
serves_call (shut_down p) = elim (is_base p) [ true ↦ false | false ↦ true ]
serves_call _ = true

-- Whether anything else was called.
unfoldable pub serves : List DaemonCall → Bool
serves [] = false
serves (c ∷ calls) = serves_call c || serves calls

module _ (sys : DaemonSystem) where
  -- The log can be opened, and the lock was got.
  abbrev pub Allowed : DaemonState → Type 0
  Allowed s =
      (sys.can_open_log ≡ true)
      × ((lock : Option Str) × (entrance_lock_get sys.lock s.lock ≡ (true, lock)))

  -- A program that serves only with the lock and the log, and that fails when it does not serve.
  abbrev pub Checked : DaemonState → Option (ℕ × DaemonState) → Type 0
  Checked s none = Allowed s
  Checked s (some (code, t)) = ((code ≡ 1) × (serves t.calls ≡ false)) ⊎ ((code ≡ 0) × Allowed s)

  -- The start with the configuration that is read.
  pub configure-runs :
      (s : DaemonState)
      → (config : EntranceConfig) × ((c : Configured) × (configure sys s
            ≡ take_lock sys config (record s { configured = c })))
  configure-runs s =
      let (c, (run, (config, at))) = config_start_total sys.config s.configured in
      (
        config,
        (
          c,
          ap
                (λ (o : Option (Unit {0} × Configured)). elim o as (λ _. Option (ℕ × DaemonState)) [
                  | none ↦ none
                  | some (u, d) ↦ with_config sys d.config (record s { configured = d })
                ])
                run
              ∙ ap (λ (o : Option EntranceConfig). with_config sys o (record s { configured = c }))
                  at,
        ),
      )

  -- The end of `main`: without root, or with options that it does not read, it fails, and with an option
  -- such as --help it ends well, all without a call; else it is checked.
  abbrev pub Guarded : DaemonState → Option (ℕ × DaemonState) → Type 0
  Guarded s none = (sys.getuid ≡ 0) × Checked s none
  Guarded s (some (code, t)) =
      ((t.calls ≡ []) × ((code ≢ 0) ⊎ (sys.options ≡ quits)))
      ⊎ ((sys.getuid ≡ 0) × Checked s (some (code, t)))
