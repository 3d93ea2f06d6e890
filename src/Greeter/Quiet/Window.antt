-- ===== src/Greeter/Quiet/Window.antt =====
-- The functions of src/bin/entrance_gui.c that neither ask the daemon for anything nor touch the
-- registration for its answer.
use entrance.History.{EntranceLogin}
use entrance.Image.{Image}
use entrance.Action.{Action}
use entrance.Greeter.Defs.{Xsession, Gui, login_show, users_enabled, action_enabled}
use entrance.Greeter.Gui.{
  ConfGui, conf_background, conf_req_passwd, conf_showlogin, conf_keyboard_and_user, all_changed,
  with_user_background, select_first, gui_update, set_wallpaper, entrance_gui_conf_set,
  selected_path, show_background, gui_user_sel_cb, gui_users_populate, entrance_gui_users_set,
  entrance_gui_xsessions_set, gui_actions_populate, entrance_gui_actions_set,
  entrance_gui_pools_set, bool_eq, flag,
}
use entrance.Greeter.Quiet.{
  QuietStep, ret-Quiet, modify-Quiet, >>=-Quiet, get-Quiet, if-Quiet, emit-Quiet, gui_set-Quiet,
  populate-Quiet, login_set-Quiet,
}
use entrance.Common.{ℕ, refl, true, List, [], ◌∷◌, ◌++◌, Option, none, some, Str, head?, ◌==◌}

set_wallpaper-Quiet : (data_dir : Str) → QuietStep (set_wallpaper data_dir)
unfolding set_wallpaper
set_wallpaper-Quiet data_dir = modify-Quiet _ λ s. refl

gui_update-Quiet : (data_dir : Str) → QuietStep (gui_update data_dir)
unfolding gui_update
gui_update-Quiet data_dir = >>=-Quiet get-Quiet λ s.
    >>=-Quiet (if-Quiet (flag 0 s.gui.changed == 0) (ret-Quiet tt) (set_wallpaper-Quiet data_dir))
      λ u. gui_set-Quiet _

conf_showlogin-Quiet : (data_dir : Str) (conf : ConfGui) → QuietStep (conf_showlogin data_dir conf)
unfolding conf_showlogin
conf_showlogin-Quiet data_dir conf = >>=-Quiet get-Quiet λ s.
    if-Quiet (bool_eq s.gui.showlogin conf.showlogin) (ret-Quiet tt) (
      >>=-Quiet
        (gui_set-Quiet (λ g. record g { showlogin = conf.showlogin; changed = flag 2 g.changed }))
        λ v. if-Quiet conf.showlogin (emit-Quiet login_show) (ret-Quiet tt))

pub conf_set-Quiet :
    (data_dir : Str) (conf : ConfGui) → QuietStep (entrance_gui_conf_set data_dir conf)
unfolding entrance_gui_conf_set
conf_set-Quiet data_dir conf =
    >>=-Quiet (gui_set-Quiet (λ g. conf_req_passwd data_dir conf (conf_background data_dir conf g)))
      λ u. >>=-Quiet (conf_showlogin-Quiet data_dir conf) λ v.
        >>=-Quiet
          (gui_set-Quiet (λ g. all_changed data_dir (conf_keyboard_and_user data_dir conf g)))
          λ w. gui_update-Quiet data_dir

show_background-Quiet :
    (data_dir : Str) (path : Option (Option Str)) (eu : EntranceLogin)
    → QuietStep (show_background data_dir path eu)
unfolding show_background
show_background-Quiet data_dir none eu = record { keeps = λ s a t e. cc }
show_background-Quiet data_dir (some path) eu =
    >>=-Quiet (gui_set-Quiet (with_user_background data_dir path eu)) λ u. gui_update-Quiet data_dir

pub user_sel-Quiet :
    (data_dir : Str) (rand : ℕ) (eu : EntranceLogin) → QuietStep (gui_user_sel_cb data_dir rand eu)
unfolding gui_user_sel_cb
user_sel-Quiet data_dir rand eu = >>=-Quiet (login_set-Quiet eu.login) λ u.
    >>=-Quiet get-Quiet
      λ s. show_background-Quiet data_dir (selected_path data_dir rand s.gui eu) eu

select_first-Quiet : (gui : Gui) (o : Option EntranceLogin) → QuietStep (select_first gui o)
unfolding select_first
select_first-Quiet gui none = ret-Quiet tt
select_first-Quiet gui (some eu) =
    if-Quiet gui.autoselect_last_user
      (>>=-Quiet (login_set-Quiet eu.login) λ u.
        modify-Quiet (λ t. record t { screen = record (t.screen) { first_selected = true } })
          (λ s. refl))
      (ret-Quiet tt)

users_populate-Quiet : QuietStep gui_users_populate
unfolding gui_users_populate
users_populate-Quiet =
    >>=-Quiet
      (modify-Quiet
        (λ s. record s {
          screen = record (s.screen) { user_items = s.screen.user_items ++ s.gui.users };
        })
        (λ s. refl))
      λ u.
        >>=-Quiet (emit-Quiet users_enabled)
          λ v. >>=-Quiet get-Quiet λ s. select_first-Quiet s.gui (head? s.gui.users)

pub users_set-Quiet : (users : List EntranceLogin) → QuietStep (entrance_gui_users_set users)
unfolding entrance_gui_users_set
users_set-Quiet users =
    >>=-Quiet (gui_set-Quiet (λ g. record g { users = users })) λ u. users_populate-Quiet

pub xsessions_set-Quiet : (xs : List Xsession) → QuietStep (entrance_gui_xsessions_set xs)
unfolding entrance_gui_xsessions_set
xsessions_set-Quiet xs =
    >>=-Quiet (populate-Quiet xs) λ u. gui_set-Quiet (λ g. record g { xsessions = xs })

actions_populate-Quiet : QuietStep gui_actions_populate
unfolding gui_actions_populate
actions_populate-Quiet =
    >>=-Quiet
      (modify-Quiet
        (λ s. record s {
          screen = record (s.screen) { action_items = s.screen.action_items ++ s.gui.actions };
        })
        (λ s. refl))
      λ u. emit-Quiet action_enabled

pub actions_set-Quiet : (actions : List Action) → QuietStep (entrance_gui_actions_set actions)
unfolding entrance_gui_actions_set
actions_set-Quiet [] = ret-Quiet tt
actions_set-Quiet (a ∷ actions) =
    >>=-Quiet (gui_set-Quiet (λ g. record g { actions = a ∷ actions })) λ u. actions_populate-Quiet

pub pools_set-Quiet :
    (icons backgrounds : List Image) → QuietStep (entrance_gui_pools_set icons backgrounds)
unfolding entrance_gui_pools_set
pools_set-Quiet icons backgrounds =
    gui_set-Quiet (λ g. record g { background_pool = backgrounds; icon_pool = icons })
