-- ===== src/Config/Fields.antt =====
-- src/daemon/entrance_config.c: the fields of the configuration, their descriptor for Eet, and which of
-- them the end of the daemon frees.
use mathlib.Core.List.{Memᴰ}
use entrance.Common.{
  ◌≡◌, refl, ◌∙◌, ap, Bool, true, false, not, ◌&&◌, ◌||◌, arith, List, [], ◌∷◌, String, Str, codes,
  str_eq, if◌then◌else◌,
}

-- `unsigned short`, `const char *` and `Eina_Bool`; and the types that Eet is told.
pub data FieldType : Type 0 where
  ushort chars eina_bool : FieldType

pub data EetType : Type 0 where
  eet_ushort eet_str eet_byte : EetType

pub record ConfigField : Type 0 where
  pub path : Str
  pub type : FieldType

-- A member of the descriptor: its key, the field, and the type.
pub record ConfigMember : Type 0 where
  pub key : Str
  pub path : Str
  pub type : EetType

abbrev f : String → FieldType → ConfigField
f path type = record { path = codes path; type = type }

abbrev m : String → String → EetType → ConfigMember
m key path type = record { key = codes key; path = codes path; type = type }

unfoldable pub config_fields : List ConfigField
config_fields =
    f "port" ushort
    ∷ f "session" chars
    ∷ f "session_path" chars
    ∷ f "command.xinit_path" chars
    ∷ f "command.xinit_args" chars
    ∷ f "command.xauth_path" chars
    ∷ f "command.xauth_file" chars
    ∷ f "command.xdisplay" chars
    ∷ f "command.session_start" chars
    ∷ f "command.session_login" chars
    ∷ f "command.session_stop" chars
    ∷ f "command.shutdown" chars
    ∷ f "command.reboot" chars
    ∷ f "command.suspend" chars
    ∷ f "command.vtnr" ushort
    ∷ f "userlogin" chars
    ∷ f "lockfile" chars
    ∷ f "logfile" chars
    ∷ f "theme" chars
    ∷ f "bg.path" chars
    ∷ f "bg.group" chars
    ∷ f "bg.random" eina_bool
    ∷ f "xsessions" eina_bool
    ∷ f "capslock" eina_bool
    ∷ f "numlock" eina_bool
    ∷ f "autologin" eina_bool
    ∷ f "showlogin" eina_bool
    ∷ f "custom_conf" eina_bool
    ∷ f "vkbd_enabled" eina_bool
    ∷ f "req_passwd" eina_bool
    ∷ f "autoselect_last_user" eina_bool
    ∷ f "start_user" chars
    ∷ []

unfoldable pub config_dd : List ConfigMember
config_dd =
    m "port" "port" eet_ushort
    ∷ m "session" "session" eet_str
    ∷ m "session_path" "session_path" eet_str
    ∷ m "xinit_path" "command.xinit_path" eet_str
    ∷ m "xinit_args" "command.xinit_args" eet_str
    ∷ m "xauth_path" "command.xauth_path" eet_str
    ∷ m "xauth_file" "command.xauth_file" eet_str
    ∷ m "xdisplay" "command.xdisplay" eet_str
    ∷ m "vtnr" "command.vtnr" eet_ushort
    ∷ m "session_start" "command.session_start" eet_str
    ∷ m "session_login" "command.session_login" eet_str
    ∷ m "session_stop" "command.session_stop" eet_str
    ∷ m "shutdown" "command.shutdown" eet_str
    ∷ m "reboot" "command.reboot" eet_str
    ∷ m "suspend" "command.suspend" eet_str
    ∷ m "capslock" "capslock" eet_byte
    ∷ m "numlock" "numlock" eet_byte
    ∷ m "xsessions" "xsessions" eet_byte
    ∷ m "autologin" "autologin" eet_byte
    ∷ m "userlogin" "userlogin" eet_str
    ∷ m "showlogin" "showlogin" eet_byte
    ∷ m "lockfile" "lockfile" eet_str
    ∷ m "logfile" "logfile" eet_str
    ∷ m "theme" "theme" eet_str
    ∷ m "background_path" "bg.path" eet_str
    ∷ m "background_group" "bg.group" eet_str
    ∷ m "background_random" "bg.random" eet_byte
    ∷ m "virtual_keyboard" "vkbd_enabled" eet_byte
    ∷ m "custom_conf" "custom_conf" eet_byte
    ∷ m "start_user" "start_user" eet_str
    ∷ m "require_password" "req_passwd" eet_byte
    ∷ m "autoselect_last_user" "autoselect_last_user" eet_byte
    ∷ []

-- What `_config_free` frees.
unfoldable pub config_freed : List Str
config_freed =
    codes "session"
    ∷ codes "session_path"
    ∷ codes "command.xinit_path"
    ∷ codes "command.xinit_args"
    ∷ codes "command.xauth_path"
    ∷ codes "command.xauth_file"
    ∷ codes "command.xdisplay"
    ∷ codes "command.session_start"
    ∷ codes "command.session_login"
    ∷ codes "command.session_stop"
    ∷ codes "command.shutdown"
    ∷ codes "command.reboot"
    ∷ codes "command.suspend"
    ∷ codes "userlogin"
    ∷ codes "lockfile"
    ∷ codes "logfile"
    ∷ codes "theme"
    ∷ []

abbrev eet_type : FieldType → EetType
eet_type ushort = eet_ushort
eet_type chars = eet_str
eet_type eina_bool = eet_byte

abbrev same_type : EetType → EetType → Bool
same_type eet_ushort eet_ushort = true
same_type eet_str eet_str = true
same_type eet_byte eet_byte = true
same_type _ _ = false

-- Whether the descriptor has a member for the field, of its type.
unfoldable pub is_described : List ConfigMember → ConfigField → Bool
unfolding str_eq
is_described [] x = false
is_described (d ∷ dd) x =
    (str_eq d.path x.path && same_type d.type (eet_type x.type)) || is_described dd x

abbrev is_in : List Str → Str → Bool
is_in [] path = false
is_in (p ∷ ps) path = str_eq p path || is_in ps path

abbrev is_chars : FieldType → Bool
is_chars chars = true
is_chars _ = false

-- The strings that are not freed.
abbrev pub leaked : List Str
leaked = codes "bg.path" ∷ codes "bg.group" ∷ codes "start_user" ∷ []

-- A string is freed unless it is one of those, and what is no string is not.
unfoldable pub is_released : ConfigField → Bool
unfolding config_freed str_eq
is_released x =
    if is_chars x.type
    then is_in config_freed x.path || is_in leaked x.path
    else not (is_in config_freed x.path)

abbrev all_fields : (ConfigField → Bool) → List ConfigField → Bool
all_fields p [] = true
all_fields p (x ∷ xs) = p x && all_fields p xs

all_fields-mem :
    (p : ConfigField → Bool) (x : ConfigField) (xs : List ConfigField)
    → all_fields p xs ≡ true
    → Memᴰ x xs
    → p x ≡ true
all_fields-mem p x [] h i = elim i [ ]
all_fields-mem p x (y ∷ xs) h (Memᴰ.head e) = ap p e ∙ ground arith
all_fields-mem p x (y ∷ xs) h (Memᴰ.tail i) = all_fields-mem p x xs (ground arith) i

-- Every field of the configuration is described to Eet with its type; and every string of it is freed at
-- the end, but for the background's path and group and the user of the greeters, and nothing else is.
pub config_fields-described :
    (x : ConfigField)
    → Memᴰ x config_fields
    → (is_described config_dd x ≡ true) × (is_released x ≡ true)
unfolding config_fields config_dd is_described is_released
config_fields-described x i = (
  all_fields-mem (is_described config_dd) x config_fields refl i,
  all_fields-mem is_released x config_fields refl i,
)
