-- ===== src/Event.antt =====
-- src/event/entrance_event.c: the names of the event types and the descriptors of the data that the
-- daemon and its clients exchange. Encoding and decoding by a descriptor is Eet's and is left out.
pub mod Fields
pub mod Names
use entrance.Common.{
  ℕ, Bool, true, false, List, [], ◌∷◌, ◌++◌, Option, none, some, String, Str, codes, str_eq,
  if◌then◌else◌,
}

pub data EventType : Type 0 where
  actions action auth conf_gui pid pools status unknown users xsessions : EventType

abbrev pub action_name : Str
action_name = codes "EntranceEventAction"

abbrev pub actions_name : Str
actions_name = codes "EntranceEventActions"

abbrev pub auth_name : Str
auth_name = codes "EntranceEventAuth"

abbrev pub conf_gui_name : Str
conf_gui_name = codes "EntranceEventConfGui"

abbrev pub pid_name : Str
pid_name = codes "EntranceEventPid"

abbrev pub pools_name : Str
pools_name = codes "EntranceEventPools"

abbrev pub status_name : Str
status_name = codes "EntranceEventStatus"

abbrev pub users_name : Str
users_name = codes "EntranceEventUsers"

abbrev pub xsessions_name : Str
xsessions_name = codes "EntranceEventSession"

-- The event type that is stored, and the result. With `is_unknown` nothing is stored.
unfoldable pub entrance_event_type_set : Str → EventType → Bool → EventType × Bool
entrance_event_type_set type ev true = (ev, false)
entrance_event_type_set type ev false =
    if str_eq type action_name
    then (action, true)
    else if str_eq type actions_name
    then (actions, true)
    else if str_eq type auth_name
    then (auth, true)
    else if str_eq type conf_gui_name
    then (conf_gui, true)
    else if str_eq type pid_name
    then (pid, true)
    else if str_eq type pools_name
    then (pools, true)
    else if str_eq type status_name
    then (status, true)
    else if str_eq type users_name
    then (users, true)
    else if str_eq type xsessions_name
    then (xsessions, true)
    else (unknown, false)

-- The name, NULL when the type has none. `*unknown` is set exactly then.
unfoldable pub entrance_event_type_get : EventType → Option Str
entrance_event_type_get action = some action_name
entrance_event_type_get actions = some actions_name
entrance_event_type_get auth = some auth_name
entrance_event_type_get conf_gui = some conf_gui_name
entrance_event_type_get pid = some pid_name
entrance_event_type_get pools = some pools_name
entrance_event_type_get status = some status_name
entrance_event_type_get users = some users_name
entrance_event_type_get xsessions = some xsessions_name
entrance_event_type_get unknown = none

pub data BasicType : Type 0 where
  eet_int eet_uchar eet_string : BasicType

mutual
  -- A member of a structure: its key with its basic type, or a list of structures.
  pub data Member : Type 0 where
    basic : Str → BasicType → Member
    list : Str → Descriptor → Member

  pub data Descriptor : Type 0 where
    ended : Descriptor
    ◌&◌ : Member → Descriptor → Descriptor

infixr 5 ◌&◌
abbrev string : String → Descriptor → Descriptor
string key d = basic (codes key) eet_string & d

abbrev int : String → Descriptor → Descriptor
int key d = basic (codes key) eet_int & d

abbrev uchar : String → Descriptor → Descriptor
uchar key d = basic (codes key) eet_uchar & d

abbrev one_list : String → Descriptor → Descriptor
one_list key d = list (codes key) d & ended

unfoldable pub entrance_event_xsessions_dd : Descriptor
entrance_event_xsessions_dd = one_list "xsessions" (string "name" (string "icon" ended))

unfoldable pub entrance_event_auth_dd : Descriptor
entrance_event_auth_dd = int "id" (string "login" (string "password" (string "session" ended)))

unfoldable pub entrance_event_conf_gui_dd : Descriptor
entrance_event_conf_gui_dd = string "bg.path" (
    string "bg.group" (
      uchar "bg.random" (
        uchar "req_passwd" (
          uchar "showlogin"
            (uchar "vkbd_enabled" (uchar "autoselect_last_user" (string "theme" ended)))))))

unfoldable pub entrance_event_status_dd : Descriptor
entrance_event_status_dd = string "login" (int "granted" (string "msgs" ended))

unfoldable pub entrance_event_image_dd : Descriptor
entrance_event_image_dd = string "path" (int "group" ended)

-- The pools are described for the stream only, not for the history's file.
unfoldable pub entrance_event_conf_user_dd : Bool → Descriptor
unfolding entrance_event_image_dd
entrance_event_conf_user_dd stream = string "login" (
    string "image.path" (
      string "image.group" (
        string "bg.path" (
          string "bg.group" (
            string "session" (
              int "remember_session" (
                if stream
                then list (codes "icon_pool") entrance_event_image_dd
                  & list (codes "background_pool") entrance_event_image_dd
                  & ended
                else ended)))))))

unfoldable pub entrance_event_users_dd : Descriptor
unfolding entrance_event_conf_user_dd
entrance_event_users_dd = one_list "users" (entrance_event_conf_user_dd true)

unfoldable pub entrance_event_user_dd : Descriptor
unfolding entrance_event_conf_user_dd
entrance_event_user_dd = entrance_event_conf_user_dd false

unfoldable pub entrance_event_actions_dd : Descriptor
entrance_event_actions_dd = one_list "actions" (string "label" (uchar "id" (string "icon" ended)))

unfoldable pub entrance_event_action_dd : Descriptor
entrance_event_action_dd = uchar "action" ended

unfoldable pub entrance_event_pid_dd : Descriptor
entrance_event_pid_dd = int "id" (int "pid" ended)

unfoldable pub entrance_event_pools_dd : Descriptor
unfolding entrance_event_image_dd
entrance_event_pools_dd =
    list (codes "icon_pool") entrance_event_image_dd
    & list (codes "background_pool") entrance_event_image_dd
    & ended

-- The mapping of the union: the descriptor that the data of each type's name has.
unfoldable pub entrance_event_new : List (Str × Descriptor)
unfolding entrance_event_users_dd
entrance_event_new =
    (action_name, entrance_event_action_dd)
    ∷ (actions_name, entrance_event_actions_dd)
    ∷ (auth_name, entrance_event_auth_dd)
    ∷ (conf_gui_name, entrance_event_conf_gui_dd)
    ∷ (pid_name, entrance_event_pid_dd)
    ∷ (pools_name, entrance_event_pools_dd)
    ∷ (status_name, entrance_event_status_dd)
    ∷ (users_name, entrance_event_users_dd)
    ∷ (xsessions_name, entrance_event_xsessions_dd)
    ∷ []
