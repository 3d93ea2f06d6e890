-- ===== src/Event/Names.antt =====
-- The names of the event types of src/event/entrance_event.c, and the descriptors under them.
use entrance.Event.{
  EventType, actions, action, auth, conf_gui, pid, pools, status, unknown, users, xsessions,
  Descriptor, entrance_event_type_get, entrance_event_type_set, entrance_event_new,
  entrance_event_action_dd, entrance_event_actions_dd, entrance_event_auth_dd,
  entrance_event_conf_gui_dd, entrance_event_pid_dd, entrance_event_pools_dd,
  entrance_event_status_dd, entrance_event_users_dd, entrance_event_xsessions_dd, action_name,
  actions_name, auth_name, conf_gui_name, pid_name, pools_name, status_name, users_name,
  xsessions_name,
}
use entrance.Common.{
  ◌≡◌, refl, ap, sym, ◌∙◌, ◌↔◌, Bool, true, false, List, [], ◌∷◌, Option, none, some, Str, str_eq,
  str_eq_iff, Bool-cases, inl, inr, if◌then◌else◌, arith,
}

-- A stored type is the one whose name was read.
Named : Str → EventType × Bool → Type 0
Named type r = (ev : EventType) → r ≡ (ev, true) → entrance_event_type_get ev ≡ some type

Named-if :
    (type name : Str) (e : EventType) (r : EventType × Bool)
    → entrance_event_type_get e ≡ some name
    → Named type r
    → Named type (if str_eq type name then (e, true) else r)
unfolding Named
Named-if type name e r of_e rest ev h = elim (Bool-cases (str_eq type name)) [
  | inl y ↦
      let same : e ≡ ev = ap (λ p. p.0) (rw y at h) in
      rw (same) at (of_e ∙ ap some (sym ((str_eq_iff type name).0 y)))
  | inr n ↦ rest ev (rw n at h)
]

type_set-Named :
    (type : Str) (old : EventType) → Named type (entrance_event_type_set type old false)
unfolding entrance_event_type_set entrance_event_type_get Named
type_set-Named type old = Named-if type action_name action _ refl (
    Named-if type actions_name actions _ refl (
      Named-if type auth_name auth _ refl (
        Named-if type conf_gui_name conf_gui _ refl (
          Named-if type pid_name pid _ refl (
            Named-if type pools_name pools _ refl (
              Named-if type status_name status _ refl (
                Named-if type users_name users _ refl
                  (Named-if type xsessions_name xsessions _ refl last))))))))
  where
    last : Named type (unknown, false)
    last ev h = cc

type_get-type_set :
    (old ev : EventType) (type : Str)
    → entrance_event_type_get ev ≡ some type
    → entrance_event_type_set type old false ≡ (ev, true)
unfolding entrance_event_type_set entrance_event_type_get str_eq
type_get-type_set old unknown type h = cc
type_get-type_set old _ type h = ground arith

-- Reading a type's name stores the type that is written under that name, and no other; a name of no
-- type is refused. What was stored before plays no part.
pub entrance_event_type_set_lem :
    (type : Str) (old ev : EventType)
    → (entrance_event_type_set type old false ≡ (ev, true))
      ↔ (entrance_event_type_get ev ≡ some type)
unfolding Named
entrance_event_type_set_lem type old ev =
    (type_set-Named type old ev, type_get-type_set old ev type)

abbrev pub lookup : {A : Type 0} → Str → List (Str × A) → Option A
lookup name [] = none
lookup name ((key, a) ∷ rest) = if str_eq name key then some a else lookup name rest

-- The structure in the union that an event of each type uses.
abbrev pub data_of : EventType → Option Descriptor
data_of action = some entrance_event_action_dd
data_of actions = some entrance_event_actions_dd
data_of auth = some entrance_event_auth_dd
data_of conf_gui = some entrance_event_conf_gui_dd
data_of pid = some entrance_event_pid_dd
data_of pools = some entrance_event_pools_dd
data_of status = some entrance_event_status_dd
data_of users = some entrance_event_users_dd
data_of xsessions = some entrance_event_xsessions_dd
data_of unknown = none

-- Whatever name is read, the union describes the data that the stored type has: decoding never takes
-- the data of one type for another's.
pub entrance_event_new_lem :
    (type : Str) (old ev : EventType)
    → entrance_event_type_set type old false ≡ (ev, true)
    → lookup type entrance_event_new ≡ data_of ev
unfolding entrance_event_new entrance_event_type_get str_eq
entrance_event_new_lem type old ev h = by_name ev ((entrance_event_type_set_lem type old ev).0 h)
  where
    by_name :
        (e : EventType)
        → entrance_event_type_get e ≡ some type
        → lookup type entrance_event_new ≡ data_of e
    by_name _ n = ground arith
