-- ===== src/Greeter/Gui.antt =====
-- src/bin/entrance_gui.c: the lists and the configuration that the daemon sends, the choice of a
-- background and of an icon, and the selection of a user. `rand()` is a parameter, and so is the
-- directory of the package's data.
use entrance.History.{EntranceLogin}
use entrance.Image.{Image}
use entrance.Action.{Action}
use entrance.Greeter.Defs.{
  Xsession, Gui, Greeter, login_show, users_enabled, action_enabled, emit, user_of,
}
use entrance.Greeter.Login.{is_nil, entrance_login_login_set, entrance_login_xsessions_populate}
use entrance.Common.{
  ℕ, ◌+◌, ◌-◌, ◌*◌, ◌/◌, ◌%◌, ◌^◌, Bool, true, false, not, ◌&&◌, List, [], ◌∷◌, ◌++◌, Option, none,
  some, Str, codes, M, ◌>>=◌, ◌>>◌, ret, get, modify, if◌then◌else◌, str_eq, head?, ◌==◌, ltb, leb,
  length, get_elem?, is_some,
}

-- The loop at the text `s` with the word from `b` to `s` before it, to the word's end.
unfoldable pub string_words : Str → Str → List Str
string_words word [] = word ∷ []
string_words word (c ∷ s) =
    let next = word ∷ string_words [] s in
    let longer = string_words (word ++ c ∷ []) s in if c == b' ' then next else longer

unfoldable pub entrance_gui_stringlist_get : Option Str → List Str
unfolding string_words
entrance_gui_stringlist_get none = []
entrance_gui_stringlist_get (some str) = string_words [] str

-- An assignment to fields of `*_gui`.
unfoldable pub gui_set : (Gui → Gui) → M Greeter (Unit {0})
gui_set f = modify λ s. record s { gui = f s.gui }

unfoldable pub entrance_gui_user_get : Gui → Str → Option EntranceLogin
unfolding user_of
entrance_gui_user_get gui name = user_of gui.users name

-- `changed & (1 << k)`.
abbrev pub flag : ℕ → ℕ → ℕ
flag k changed = changed / 2 ^ k % 2 * 2 ^ k

-- The test of two pointers to shared strings, which are equal for equal texts.
abbrev pub opt_eq : Option Str → Option Str → Bool
opt_eq none none = true
opt_eq none (some b) = false
opt_eq (some a) none = false
opt_eq (some a) (some b) = str_eq a b

abbrev pub non_empty : Option Str → Bool
non_empty none = false
non_empty (some s) = not (is_nil s)

abbrev pub bool_eq : Bool → Bool → Bool
bool_eq true b = b
bool_eq false b = not b

abbrev pub with_path : Image → Option Str → Image
with_path i path = record i { path = path }

abbrev pub with_group : Image → Option Str → Image
with_group i group = record i { group = group }

-- The event of the configuration.
pub record ConfGui : Type 0 where
  pub bg : Image
  pub bg_random : Bool
  pub req_passwd : Bool
  pub showlogin : Bool
  pub vkbd_enabled : Bool
  pub autoselect_last_user : Bool

-- The image at `rnd` of a list; none is a dereference of NULL.
abbrev pub path_at : List Image → ℕ → Option (Option Str)
path_at images rnd = elim (get_elem? images rnd) [ none ↦ none | some img ↦ some img.path ]

abbrev pub backgrounds_of : Option EntranceLogin → List Image
backgrounds_of none = []
backgrounds_of (some el) = el.background_pool

abbrev pub icons_of : Option EntranceLogin → List Image
icons_of none = []
icons_of (some el) = el.icon_pool

-- The choice among the backgrounds of a user, who may be unknown, and of the system. The outer option
-- is a fault, the inner one a NULL path.
unfoldable pub background_choice : ℕ → Option EntranceLogin → List Image → Option (Option Str)
background_choice rand el sys_backgrounds =
    let user_backgrounds = backgrounds_of el in
    let user_count = length user_backgrounds in
    let max = user_count + length sys_backgrounds in
    if max == 0
    then some none
    else (let rnd = rand % max in
        if is_some el && ltb rnd user_count
        then path_at user_backgrounds rnd
        else if leb user_count rnd && ltb rnd max
        then path_at sys_backgrounds (rnd - user_count)
        else none)

unfoldable pub background_random_get : ℕ → Gui → Option Str → Option (Option Str)
unfolding background_choice
background_random_get rand gui none = background_choice rand none gui.background_pool
background_random_get rand gui (some username) =
    background_choice rand (entrance_gui_user_get gui username) gui.background_pool

-- The file and the group that the icon is set to.
abbrev pub image_at : List Image → ℕ → Option Image
image_at images rnd = get_elem? images rnd

abbrev pub without_group : Option Image → Option Image
without_group none = none
without_group (some img) = some (record img { group = none })

unfoldable pub user_icon_random_get : ℕ → Gui → Str → Option Image
user_icon_random_get rand gui username =
    let el = entrance_gui_user_get gui username in
    let user_count = length (icons_of el) in
    let sys_count = length gui.icon_pool in
    let max = user_count + sys_count + length gui.theme_icon_pool in
    let rnd = if ltb 0 max then rand % max else 0 in
    if is_some el && ltb rnd user_count
    then without_group (image_at (icons_of el) rnd)
    else if leb user_count rnd && ltb rnd (user_count + sys_count)
    then without_group (image_at gui.icon_pool (rnd - user_count))
    else image_at gui.theme_icon_pool (rnd - (user_count + sys_count))

module _ (data_dir : Str) where
  abbrev default_wallpaper : Image
  default_wallpaper = record {
    group = some (codes "e/desktop/background");
    path = some (data_dir ++ codes "/../elementary/themes/default.edj");
  }

  -- Without a path the default file is shown, and becomes the background.
  unfoldable pub wallpaper_of : Image → Image
  wallpaper_of bg = elim bg.path [ none ↦ default_wallpaper | some p ↦ bg ]

  unfoldable pub set_wallpaper : M Greeter (Unit {0})
  unfolding wallpaper_of
  set_wallpaper = modify λ s. record s {
    gui = record (s.gui) { bg = wallpaper_of s.gui.bg };
    screen = record (s.screen) { wallpaper = some (wallpaper_of s.gui.bg) };
  }

  unfoldable pub gui_update : M Greeter (Unit {0})
  unfolding set_wallpaper gui_set
  gui_update = do
    s ← get
    if flag 0 s.gui.changed == 0 then ret tt else set_wallpaper
    gui_set (λ g. record g { changed = 0 })

  -- The field-by-field part of `entrance_gui_conf_set`.
  unfoldable pub conf_background : ConfGui → Gui → Gui
  conf_background conf g =
      let g1 =
        if not (opt_eq g.bg.path conf.bg.path) && non_empty conf.bg.path
        then record g {
          bg = with_path g.bg conf.bg.path;
          changed = flag 0 g.changed;
          conf_bg = with_path g.conf_bg conf.bg.path;
        }
        else g in
      let g2 =
        if not (opt_eq g1.bg.group conf.bg.group) && non_empty conf.bg.group
        then record g1 {
          bg = with_group g1.bg conf.bg.group;
          changed = flag 0 g1.changed;
          conf_bg = with_group g1.conf_bg conf.bg.group;
        }
        else g1 in
      if bool_eq g2.conf_bg_random conf.bg_random
      then g2
      else record g2 { conf_bg_random = conf.bg_random; changed = flag 0 g2.changed }

  -- A flag that differs is set, and its bit of `changed` alone is kept.
  unfoldable pub conf_req_passwd : ConfGui → Gui → Gui
  conf_req_passwd conf g =
      if bool_eq g.req_passwd conf.req_passwd
      then g
      else record g { req_passwd = conf.req_passwd; changed = flag 1 g.changed }

  unfoldable pub conf_showlogin : ConfGui → M Greeter (Unit {0})
  unfolding gui_set emit
  conf_showlogin conf = do
    s ← get
    if bool_eq s.gui.showlogin conf.showlogin then ret tt else (do
      gui_set (λ g. record g { showlogin = conf.showlogin; changed = flag 2 g.changed })
      if conf.showlogin then emit login_show else ret tt)

  unfoldable pub conf_keyboard_and_user : ConfGui → Gui → Gui
  conf_keyboard_and_user conf g =
      let g1 =
        if bool_eq g.vkbd_enabled conf.vkbd_enabled
        then g
        else record g { vkbd_enabled = conf.vkbd_enabled; changed = flag 3 g.changed } in
      if bool_eq g1.autoselect_last_user conf.autoselect_last_user then g1 else record g1 {
        autoselect_last_user = conf.autoselect_last_user;
        changed = flag 4 g1.changed;
      }

  unfoldable pub all_changed : Gui → Gui
  all_changed g = record g { changed = 255 }

  unfoldable pub entrance_gui_conf_set : ConfGui → M Greeter (Unit {0})
  unfolding conf_background conf_req_passwd conf_showlogin conf_keyboard_and_user gui_update gui_set
      all_changed
  entrance_gui_conf_set conf = do
    gui_set (λ g. conf_req_passwd conf (conf_background conf g))
    conf_showlogin conf
    gui_set (λ g. all_changed (conf_keyboard_and_user conf g))
    gui_update

  -- The background of a selected user: the user's own, a random one, or the configured one. none is a
  -- fault.
  unfoldable pub selected_path : ℕ → Gui → EntranceLogin → Option (Option Str)
  selected_path rand gui eu = elim eu.bg.path [
    | some p ↦ some (some p)
    | none ↦
        elim (if gui.conf_bg_random
          then background_random_get rand gui (some eu.login)
          else some none) [
            | none ↦ none
            | some none ↦ some gui.conf_bg.path
            | some (some p) ↦ some (some p)
          ]
  ]

  abbrev pub or_else : Option Str → Option Str → Option Str
  or_else none b = b
  or_else (some a) b = some a

  unfoldable pub with_user_background : Option Str → EntranceLogin → Gui → Gui
  with_user_background path eu g = record g {
    bg = record { path = path; group = or_else eu.bg.group g.conf_bg.group };
    changed = 255;
  }

  unfoldable pub show_background : Option (Option Str) → EntranceLogin → M Greeter (Unit {0})
  unfolding gui_update gui_set with_user_background
  show_background none eu s = none
  show_background (some path) eu s = (do gui_set (with_user_background path eu); gui_update) s

  unfoldable pub gui_user_sel_cb : ℕ → EntranceLogin → M Greeter (Unit {0})
  unfolding selected_path show_background
  gui_user_sel_cb rand eu = do
    entrance_login_login_set eu.login
    s ← get
    show_background (selected_path rand s.gui eu) eu

-- The first user of the list, with `autoselect_last_user`. The callback of its selection is an event of
-- its own.
unfoldable pub select_first : Gui → Option EntranceLogin → M Greeter (Unit {0})
select_first gui none = ret tt
select_first gui (some first_user) =
    if gui.autoselect_last_user
    then (do
      entrance_login_login_set first_user.login
      modify (λ t. record t { screen = record (t.screen) { first_selected = true } }))
    else ret tt

unfoldable pub gui_users_populate : M Greeter (Unit {0})
unfolding emit select_first
gui_users_populate = do
  modify (λ s. record s {
    screen = record (s.screen) { user_items = s.screen.user_items ++ s.gui.users };
  })
  emit users_enabled
  s ← get
  select_first s.gui (head? s.gui.users)

unfoldable pub entrance_gui_users_set : List EntranceLogin → M Greeter (Unit {0})
unfolding gui_set gui_users_populate
entrance_gui_users_set users = do gui_set (λ g. record g { users = users }); gui_users_populate

unfoldable pub entrance_gui_xsessions_set : List Xsession → M Greeter (Unit {0})
unfolding gui_set
entrance_gui_xsessions_set xsessions = do
  entrance_login_xsessions_populate xsessions
  gui_set (λ g. record g { xsessions = xsessions })

unfoldable pub gui_actions_populate : M Greeter (Unit {0})
unfolding emit
gui_actions_populate = do
  modify (λ s. record s {
    screen = record (s.screen) { action_items = s.screen.action_items ++ s.gui.actions };
  })
  emit action_enabled

-- An empty list is a NULL one.
unfoldable pub entrance_gui_actions_set : List Action → M Greeter (Unit {0})
unfolding gui_set gui_actions_populate
entrance_gui_actions_set [] = ret tt
entrance_gui_actions_set (a ∷ actions) = do
  gui_set (λ g. record g { actions = a ∷ actions })
  gui_actions_populate

unfoldable pub entrance_gui_pools_set : List Image → List Image → M Greeter (Unit {0})
unfolding gui_set
entrance_gui_pools_set icon_pool background_pool =
    gui_set λ g. record g { background_pool = background_pool; icon_pool = icon_pool }
