-- ===== src/Event/Fields.antt =====
-- The structures of src/event/entrance_event.h, and whether the descriptors of src/event/entrance_event.c
-- give their fields the types that they have.
use entrance.Event.{
  EventType, actions, action, auth, conf_gui, pid, pools, status, unknown, users, xsessions,
  BasicType, eet_int, eet_uchar, eet_string, Member, basic, list, Descriptor, ended, ◌&◌,
  action_name, entrance_event_type_set, entrance_event_type_get, entrance_event_new,
}
use entrance.Event.Names.{lookup, data_of, entrance_event_type_set_lem, entrance_event_new_lem}
use entrance.Common.{
  ◌≡◌, refl, ◌∙◌, Bool, true, false, List, [], ◌∷◌, ◌++◌, Option, none, some, String, Str, codes,
  str_eq, if◌then◌else◌,
}

mutual
  -- The type of a field: `int` or `pid_t`, `unsigned char` or `Eina_Bool`, `const char *`, or a list.
  pub data CType : Type 0 where
    c_int c_uchar c_string : CType
    c_list : Struct → CType

  pub data Struct : Type 0 where
    no_more : Struct
    field : Str → CType → Struct → Struct

abbrev c : String → CType → Struct → Struct
c name type rest = field (codes name) type rest

unfoldable pub image_struct : Struct
image_struct = c "group" c_string (c "path" c_string no_more)

-- `Entrance_Login`, with the fields of its images by their paths.
unfoldable pub login_struct : Struct
unfolding image_struct
login_struct = c "login" c_string (
    c "session" c_string (
      c "bg.group" c_string (
        c "bg.path" c_string (
          c "image.group" c_string (
            c "image.path" c_string (
              c "remember_session" c_uchar (
                c "icon_pool" (c_list image_struct)
                  (c "background_pool" (c_list image_struct) no_more))))))))

unfoldable pub action_struct : Struct
action_struct = c "id" c_uchar (c "label" c_string (c "icon" c_string no_more))

unfoldable pub xsession_struct : Struct
xsession_struct =
    c "name" c_string (c "command" c_string (c "icon" c_string (c "is_wayland" c_uchar no_more)))

unfoldable pub conf_gui_struct : Struct
conf_gui_struct = c "enabled" c_uchar (
    c "theme" c_string (
      c "bg.group" c_string (
        c "bg.path" c_string (
          c "bg.random" c_uchar (
            c "req_passwd" c_uchar (
              c "showlogin" c_uchar
                (c "vkbd_enabled" c_uchar (c "autoselect_last_user" c_uchar no_more))))))))

unfoldable pub pools_struct : Struct
unfolding image_struct
pools_struct =
    c "icon_pool" (c_list image_struct) (c "background_pool" (c_list image_struct) no_more)

-- The structure in the union for an event of each type.
unfoldable pub struct_of : EventType → Struct
unfolding login_struct action_struct xsession_struct conf_gui_struct pools_struct
struct_of action = c "action" c_uchar no_more
struct_of actions = c "actions" (c_list action_struct) no_more
struct_of auth =
    c "id" c_int (c "login" c_string (c "password" c_string (c "session" c_string no_more)))
struct_of conf_gui = conf_gui_struct
struct_of pid = c "id" c_int (c "pid" c_int no_more)
struct_of pools = pools_struct
struct_of status = c "login" c_string (c "granted" c_int (c "msgs" c_string no_more))
struct_of users = c "users" (c_list login_struct) no_more
struct_of xsessions = c "xsessions" (c_list xsession_struct) no_more
struct_of unknown = no_more

unfoldable pub field_type : Struct → Str → Option CType
unfolding str_eq
field_type no_more key = none
field_type (field name type rest) key =
    let later = field_type rest key in if str_eq name key then some type else later

abbrev is_typed : BasicType → Option CType → Bool
is_typed eet_int (some c_int) = true
is_typed eet_uchar (some c_uchar) = true
is_typed eet_string (some c_string) = true
is_typed _ _ = false

-- What a list holds; the empty structure for what is no list.
abbrev element : Option CType → Struct
element (some (c_list s)) = s
element _ = no_more

-- The described members, with those of lists, whose type is not the field's.
unfoldable pub mismatches : Struct → Descriptor → List Str
unfolding field_type
mismatches s ended = []
mismatches s (basic key type & d) =
    let rest = mismatches s d in if is_typed type (field_type s key) then rest else key ∷ rest
mismatches s (list key inner & d) = mismatches (element (field_type s key)) inner ++ mismatches s d

-- The group of an image is described as an integer, and so is whether a session is remembered.
abbrev pub wrong : EventType → List Str
wrong users = codes "remember_session" ∷ codes "group" ∷ codes "group" ∷ []
wrong pools = codes "group" ∷ codes "group" ∷ []
wrong _ = []

-- What the union describes for a type.
data_mismatches :
    (e : EventType) {type : Str}
    → entrance_event_type_get e ≡ some type
    → (dd : Descriptor) × ((data_of e ≡ some dd) × (mismatches (struct_of e) dd ≡ wrong e))
unfolding entrance_event_new entrance_event_type_get mismatches struct_of
    entrance.Event.entrance_event_actions_dd entrance.Event.entrance_event_action_dd
    entrance.Event.entrance_event_auth_dd entrance.Event.entrance_event_conf_gui_dd
    entrance.Event.entrance_event_pid_dd entrance.Event.entrance_event_pools_dd
    entrance.Event.entrance_event_status_dd entrance.Event.entrance_event_xsessions_dd
data_mismatches action n = (_, (refl, refl))
data_mismatches actions n = (_, (refl, refl))
data_mismatches auth n = (_, (refl, refl))
data_mismatches conf_gui n = (_, (refl, refl))
data_mismatches pid n = (_, (refl, refl))
data_mismatches pools n = (_, (refl, refl))
data_mismatches status n = (_, (refl, refl))
data_mismatches unknown n = cc
data_mismatches users n = (_, (refl, refl))
data_mismatches xsessions n = (_, (refl, refl))

-- Whatever name is read, if it is stored as a type then the union has a descriptor for the name, each
-- member of which has the type of its field in the structure of that type, but for the group of an
-- image and for whether a session is remembered.
pub entrance_event_new-mismatches :
    (type : Str) (old ev : EventType)
    → entrance_event_type_set type old false ≡ (ev, true)
    → (dd : Descriptor) × ((lookup type entrance_event_new ≡ some dd)
        × (mismatches (struct_of ev) dd ≡ wrong ev))
entrance_event_new-mismatches type old ev h =
    let (dd, (at, types)) = data_mismatches ev ((entrance_event_type_set_lem type old ev).0 h) in
    (dd, (entrance_event_new_lem type old ev h ∙ at, types))
