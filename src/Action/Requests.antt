-- ===== src/Action/Requests.antt =====
-- Requests of clients and ends of processes, as src/daemon/entrance_action.c handles them.
use mathlib.Core.List.{Memᴰ}
use entrance.Common.{
  ℕ, zero, suc, ◌<◌, ◌≡◌, refl, ap, true, false, List, [], ◌∷◌, ◌++◌, Option, none, some, Str,
  arith, get_elem?, length, ◌⊎◌, inl, inr, length-append, codes, sym, subst, ◌∙◌, Option-cases,
  Bool-cases, ◌==◌,
}
use entrance.Action.{
  ActionFunc, ActionData, Action, Actions, ActionCommands, ActionEvent, requested, exe_del,
  shutdown, reboot, suspend, append_action, entrance_action_init, entrance_action_get,
  entrance_action_run, run_func, action_step, action_steps, entrance_action_add,
}

-- Each action's id is its place.
Placed : List ActionData → Type 0
Placed actions = (i : ℕ) (a : ActionData) → get_elem? actions i ≡ some a → a.id ≡ i

get_elem?-append_last :
    {A : Type 0} (xs : List A) (x y : A) (i : ℕ)
    → get_elem? (xs ++ x ∷ []) i ≡ some y
    → (get_elem? xs i ≡ some y) ⊎ ((i ≡ length xs) × (x ≡ y))
get_elem?-append_last [] x y zero e = inr (refl, cc)
get_elem?-append_last [] x y (suc i) e = cc
get_elem?-append_last (z ∷ xs) x y zero e = inl e
get_elem?-append_last (z ∷ xs) x y (suc i) e = elim (get_elem?-append_last xs x y i e) [
  | inl q ↦ inl q
  | inr q ↦ inr (ap suc q.0, q.1)
]

append_action-Placed :
    (actions : List ActionData) (label : Str) (func : ActionFunc)
    → length actions < 256
    → Placed actions
    → Placed (append_action actions label func)
unfolding append_action Placed
append_action-Placed actions label func h p i a e =
    elim (get_elem?-append_last actions (entrance_action_add actions label func) a i e) [
      | inl q ↦ p i a q
      | inr q ↦ ground arith
    ]

length-append_action :
    (actions : List ActionData) (label : Str) (func : ActionFunc)
    → length (append_action actions label func) ≡ suc (length actions)
unfolding append_action
length-append_action actions label func =
    omega (arith, length-append actions (entrance_action_add actions label func ∷ []))

none-Placed : Placed []
unfolding Placed
none-Placed i a e = cc

init-Placed : Placed (entrance_action_init [])
unfolding entrance_action_init append_action
init-Placed =
    let one = append_action [] (codes "Shutdown") shutdown in
    let two = append_action one (codes "Reboot") reboot in
    append_action-Placed two (codes "Suspend") suspend (omega arith) (
      append_action-Placed one (codes "Reboot") reboot (omega arith)
        (append_action-Placed [] (codes "Shutdown") shutdown (omega arith) none-Placed))

get_elem?-action_get :
    (actions : List ActionData) (i : ℕ) (a : Action)
    → get_elem? (entrance_action_get actions) i ≡ some a
    → (d : ActionData) × (get_elem? actions i ≡ some d) × (a.id ≡ d.id) × (a.label ≡ d.label)
unfolding entrance_action_get
get_elem?-action_get [] i a e = cc
get_elem?-action_get (d ∷ ds) zero a e = (d, refl, ground arith, ground arith)
get_elem?-action_get (d ∷ ds) (suc i) a e = get_elem?-action_get ds i a e

module _ (cmd : ActionCommands) (exe_run : List Str → Str → Option ℕ) where
  run_at :
      (s : Actions) (id : ℕ) (d : ActionData)
      → get_elem? s.actions id ≡ some d
      → entrance_action_run cmd exe_run s id ≡ run_func cmd exe_run s d.func
  unfolding entrance_action_run
  run_at s id d e = rw (e, entrance_action_run)

  -- The id that a client is shown with an action's label runs the action with that label.
  pub shown_action_runs :
      (s : Actions) (i : ℕ) (a : Action)
      → s.actions ≡ entrance_action_init []
      → get_elem? (entrance_action_get s.actions) i ≡ some a
      → (d : ActionData) × (d.label ≡ a.label)
        × (get_elem? s.actions i ≡ some d)
        × (entrance_action_run cmd exe_run s a.id ≡ run_func cmd exe_run s d.func)
  unfolding Placed
  shown_action_runs s i a e h =
      let (d, at_i, ids, labels) = get_elem?-action_get s.actions i a h in
      let place : d.id ≡ i = init-Placed i d (subst (λ x. get_elem? x i ≡ some d) e at_i) in
      (
        d,
        sym labels,
        at_i,
        run_at s a.id d (subst (λ x. get_elem? s.actions x ≡ some d) (sym (ids ∙ place)) at_i),
      )

  -- A command that ends the machine has been run.
  abbrev pub Ended : Actions → Type 0
  Ended s = Memᴰ cmd.shutdown s.launched ⊎ Memᴰ cmd.reboot s.launched

  record Asked (s : Actions) : Type 0 where
    handle_kept : (h : ℕ) → s.action_exe ≡ some h → Ended s
    quits : s.quit ≡ true → Ended s

  Ended-later : (s : Actions) (c : Str) → Ended s → Ended (record s { launched = c ∷ s.launched })
  Ended-later s c (inl m) = inl (Memᴰ.tail m)
  Ended-later s c (inr m) = inr (Memᴰ.tail m)

  run_func-Asked : (s : Actions) (f : ActionFunc) → Asked s → Asked (run_func cmd exe_run s f)
  unfolding run_func
  run_func-Asked s shutdown v = record {
    handle_kept = λ h e. inl (Memᴰ.head refl);
    quits = λ e. inl (Memᴰ.head refl);
  }
  run_func-Asked s reboot v = record {
    handle_kept = λ h e. inr (Memᴰ.head refl);
    quits = λ e. inr (Memᴰ.head refl);
  }
  run_func-Asked s suspend v = record {
    handle_kept = λ h e. cc;
    quits = λ e. Ended-later s cmd.suspend (v.quits e);
  }

  exe_del_cases :
      (s : Actions) (exe : ℕ)
      → (action_step cmd exe_run s (exe_del (some exe)) ≡ s)
        ⊎ ((h : ℕ) × (s.action_exe ≡ some h)
            × (action_step cmd exe_run s (exe_del (some exe)) ≡ record s { quit = true }))
  unfolding action_step
  exe_del_cases s exe = elim (Option-cases s.action_exe) [
    | inl q ↦ inl (ground arith)
    | inr (a, q) ↦ elim (Bool-cases (exe == a)) [
      | inl y ↦ inr (a, q, ground arith)
      | inr n ↦ inl (ground arith)
    ]
  ]

  action_step-Asked :
      (s : Actions) (e : ActionEvent) → Asked s → Asked (action_step cmd exe_run s e)
  unfolding action_step
  action_step-Asked s (requested action) v = elim (Option-cases (get_elem? s.actions action)) [
    | inl q ↦ rw (q, action_step, entrance_action_run) v
    | inr (d, q) ↦ subst Asked (sym (run_at s action d q)) (run_func-Asked s d.func v)
  ]
  action_step-Asked s (exe_del none) v = v
  action_step-Asked s (exe_del (some exe)) v = elim (exe_del_cases s exe) [
    | inl q ↦ subst Asked (sym q) v
    | inr (h, q, e) ↦
        subst Asked (sym e) (record { handle_kept = v.handle_kept; quits = λ u. v.handle_kept h q })
  ]

  action_steps-Asked :
      (s : Actions) (es : List ActionEvent) → Asked s → Asked (action_steps cmd exe_run s es)
  unfolding action_steps
  action_steps-Asked s [] v = v
  action_steps-Asked s (e ∷ es) v =
      action_steps-Asked (action_step cmd exe_run s e) es (action_step-Asked s e v)

  -- From a state in which no action was run, the daemon's loop ends for an action only after the
  -- shutdown or the reboot command was run, whatever clients ask for and whichever processes end.
  pub quit_needs_command :
      (s : Actions) (es : List ActionEvent)
      → s.quit ≡ false
      → s.action_exe ≡ none
      → (action_steps cmd exe_run s es).quit ≡ true
      → Ended (action_steps cmd exe_run s es)
  quit_needs_command s es q n =
      (action_steps-Asked s es (record { handle_kept = λ h e. cc; quits = λ e. cc })).quits
