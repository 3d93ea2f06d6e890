-- ===== src/Greeter/Theme.antt =====
-- src/bin/entrance_gui.c: the theme's file, the icons that a theme offers for users, and what is shown of
-- a user and of an action.
pub mod Icons
use entrance.Greeter.Gui.{entrance_gui_stringlist_get, user_icon_random_get}
use entrance.Greeter.Defs.{Gui}
use entrance.Image.{Image}
use entrance.History.{EntranceLogin}
use entrance.Action.{Action}
use entrance.Common.{
  ℕ, zero, suc, Bool, true, false, not, ◌&&◌, ◌||◌, List, [], ◌∷◌, ◌++◌, Option, none, some, Str,
  codes, truncate, if◌then◌else◌, is_some, str_eq,
}

-- The directory of the data, whether a file with a group can be loaded into a layout, and the data named
-- `items` of the group for users of a file, when its layout has an Edje object.
pub record ThemeSystem : Type 0 where
  pub data_dir : Str
  pub file_set : Str → Str → Bool
  pub items : Str → Option (Option Str)

abbrev pub path_max : ℕ
path_max = 4096

-- The Edje group for a user.
abbrev pub user_group : Str
user_group = codes "entrance/user"

-- An image for each string: of the file with the string's group, or the string as a file. Without a file
-- the empty strings are left out.
unfoldable pub string_to_entrance_image : List Str → Option Str → List Image
string_to_entrance_image [] stdfile = []
string_to_entrance_image (s ∷ src) (some stdfile) =
    record { group = some (truncate path_max (codes "entrance/user/" ++ s)); path = some stdfile }
    ∷ string_to_entrance_image src (some stdfile)
string_to_entrance_image ([] ∷ src) none = string_to_entrance_image src none
string_to_entrance_image ((c ∷ s) ∷ src) none =
    record { group = none; path = some (c ∷ s) } ∷ string_to_entrance_image src none

-- What is shown for a user: a random image, an icon of a file, or the group of the theme, with the
-- file that it comes from.
pub data UserIcon : Type 0 where
  random_icon : Option Image → UserIcon
  file_icon : Str → UserIcon
  themed_icon : Option Str → UserIcon

module _ (sys : ThemeSystem) where
  -- The file of a theme, also `entrance_gui_theme_path_get`.
  unfoldable pub theme_path : Str → Str
  theme_path theme = truncate path_max (sys.data_dir ++ codes "/themes/" ++ theme ++ codes ".edj")

  unfoldable pub default_path : Str
  default_path = sys.data_dir ++ codes "/themes/default.edj"

  abbrev pub loaded : Str → Str → Option Str
  loaded path group = if sys.file_set path group then some path else none

  -- The file that the layout has, if one can be loaded into it.
  unfoldable pub entrance_gui_theme_get : Option Str → Str → Option Str
  unfolding theme_path default_path
  entrance_gui_theme_get none group = loaded default_path group
  entrance_gui_theme_get (some theme) group =
      if sys.file_set (theme_path theme) group
      then some (theme_path theme)
      else loaded default_path group

  abbrev images_of : Str → Option (Option Str) → List Image
  images_of path none = []
  images_of path (some items) =
      string_to_entrance_image (entrance_gui_stringlist_get items) (some path)

  unfoldable pub theme_icons_cache_fill : Str → List Image
  unfolding theme_path string_to_entrance_image entrance_gui_stringlist_get
  theme_icons_cache_fill theme =
      if sys.file_set (theme_path theme) user_group
      then images_of (theme_path theme) (sys.items (theme_path theme))
      else []

  abbrev pub icon_for : ℕ → Gui → EntranceLogin → Option Str → Option Str → UserIcon
  icon_for rand gui eu none none = random_icon (user_icon_random_get rand gui eu.login)
  icon_for rand gui eu (some path) none = file_icon path
  icon_for rand gui eu path (some group) = themed_icon (entrance_gui_theme_get gui.theme group)

  -- Only the part for the icon has a content.
  unfoldable pub gui_user_content_get : ℕ → Gui → EntranceLogin → Str → Option UserIcon
  unfolding entrance_gui_theme_get user_icon_random_get str_eq
  gui_user_content_get rand gui eu part =
      if str_eq part (codes "elm.swallow.icon")
      then some (icon_for rand gui eu eu.image.path eu.image.group)
      else none

-- `part` may be NULL.
abbrev is_named : Option Str → Str → Bool
is_named none name = false
is_named (some part) name = str_eq part name

unfoldable pub gui_user_text_get : EntranceLogin → Option Str → Option Str
unfolding str_eq
gui_user_text_get eu part =
    if is_named part (codes "elm.text.sub") then eu.session else some eu.login

unfoldable pub gui_action_text_get : Action → Option Str → Str
unfolding str_eq
gui_action_text_get ea part = if is_named part (codes "icon") then ea.icon else ea.label
