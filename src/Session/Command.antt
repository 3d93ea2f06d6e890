-- ===== src/Session/Command.antt =====
-- The command that a login launches: `_entrance_session_find_command` and
-- `_entrance_session_is_wayland` of src/daemon/entrance_session.c. Tests of the file system are
-- parameters.
use entrance.Session.Desktops.{Xsession}
use entrance.Common.{
  ℕ, Bool, false, List, [], ◌∷◌, ◌++◌, Option, none, some, Str, codes, truncate, str_eq,
  if◌then◌else◌, ◌⊎◌, inl, inr,
}

pub record Paths : Type 0 where
  pub path_max : ℕ
  pub can_exec : Str → Bool
  pub exists : Str → Bool

unfoldable pub entrance_session_is_wayland : List Xsession → Option Str → Bool
entrance_session_is_wayland xsessions none = false
entrance_session_is_wayland [] (some session) = false
entrance_session_is_wayland (x ∷ xs) (some session) =
    let rest = entrance_session_is_wayland xs (some session) in
    if str_eq x.name session then x.is_wayland else rest

-- The loop of `_entrance_session_find_command`: the command it returns, or the value of the loop's
-- variable after it, which is NULL when the list has run out.
unfoldable pub find_in_list : List Xsession → Str → Option Str ⊎ Option Xsession
find_in_list [] session = inr none
find_in_list (x ∷ xs) session =
    let rest = find_in_list xs session in
    elim x.command [
      | none ↦ rest
      | some command ↦ if str_eq x.name session then inl (some command) else rest
    ]

module _ (sys : Paths) where
  -- `"%s/%s %s"` with the script and the session's command, or the script alone.
  with_command : Str → Option Xsession → Str
  with_command script none = truncate sys.path_max script
  with_command script (some x) =
      truncate sys.path_max
        (script ++ codes " " ++ elim x.command [ none ↦ codes "(null)" | some c ↦ c ])

  abbrev system_script : Option Xsession → Str
  system_script none = codes "sh /etc/X11/xinit/xinitrc"
  system_script (some x) =
      truncate sys.path_max (
        codes "sh /etc/X11/xinit/xinitrc " ++ elim x.command [ none ↦ codes "(null)" | some c ↦ c ])

  fallback : Str → Option Xsession → Option Str
  unfolding with_command
  fallback path xsession =
      let xinitrc = path ++ codes "/.xinitrc" in
      let xsession_file = path ++ codes "/.Xsession" in
      if sys.can_exec (truncate sys.path_max xinitrc)
      then some (with_command xinitrc xsession)
      else if sys.can_exec (truncate sys.path_max xsession_file)
      then some (with_command xsession_file xsession)
      else if sys.exists (codes "/etc/X11/xinit/xinitrc")
      then some (system_script xsession)
      else none

  unfoldable pub entrance_session_find_command : List Xsession → Str → Option Str → Option Str
  unfolding find_in_list fallback
  entrance_session_find_command xsessions path none = fallback path none
  entrance_session_find_command xsessions path (some session) =
      elim (find_in_list xsessions session) [ inl command ↦ command | inr x ↦ fallback path x ]
