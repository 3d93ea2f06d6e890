-- ===== src/Greeter/Theme/Icons.antt =====
-- The icons that a theme offers: src/bin/entrance_gui.c.
use entrance.Greeter.Theme.{
  ThemeSystem, path_max, user_group, string_to_entrance_image, theme_path, entrance_gui_theme_get,
  theme_icons_cache_fill, themed_icon, gui_user_content_get, icon_for,
}
use entrance.Greeter.Strings.{join, Spaceless, stringlist_get-join}
use entrance.Greeter.Defs.{Gui}
use entrance.Image.{Image}
use entrance.History.{EntranceLogin}
use entrance.Common.{
  ℕ, ◌≡◌, refl, sym, ◌∙◌, ap, subst, true, List, [], ◌∷◌, ◌++◌, map, some, Str, codes, truncate,
  All, str_eq,
}

-- The Edje group of an icon's name.
abbrev pub icon_group : Str → Str
icon_group word = truncate path_max (codes "entrance/user/" ++ word)

module _ (sys : ThemeSystem) (theme : Str) where
  abbrev pub icon_of_word : Str → Image
  icon_of_word word = record { group = some (icon_group word); path = some (theme_path sys theme) }

  images_of_words :
      (ws : List Str)
      → string_to_entrance_image ws (some (theme_path sys theme)) ≡ map icon_of_word ws
  unfolding string_to_entrance_image
  images_of_words [] = refl
  images_of_words (w ∷ ws) = ap (◌∷◌ (icon_of_word w)) (images_of_words ws)

  -- A user with the image is shown with the theme's file.
  abbrev pub ShowsTheme : Gui → Image → Type 0
  ShowsTheme gui image =
      (rand : ℕ) (eu : EntranceLogin)
      → eu.image ≡ image
      → gui_user_content_get sys rand gui eu (codes "elm.swallow.icon")
        ≡ some (themed_icon (some (theme_path sys theme)))

  theme_file :
      (group : Str)
      → sys.file_set (theme_path sys theme) group ≡ true
      → entrance_gui_theme_get sys (some theme) group ≡ some (theme_path sys theme)
  unfolding entrance_gui_theme_get
  theme_file group has = rw has refl

  word-ShowsTheme :
      (gui : Gui) (w : Str)
      → gui.theme ≡ some theme
      → sys.file_set (theme_path sys theme) (icon_group w) ≡ true
      → ShowsTheme gui (icon_of_word w)
  unfolding gui_user_content_get str_eq
  word-ShowsTheme gui w t has rand eu e =
      ap (λ (img : Image). some (icon_for sys rand gui eu img.path img.group)) e
      ∙ (ap (λ o. some (themed_icon (entrance_gui_theme_get sys o (icon_group w)))) t
          ∙ ap (λ o. some (themed_icon o)) (theme_file (icon_group w) has))

  words-ShowsTheme :
      (gui : Gui) (ws : List Str)
      → gui.theme ≡ some theme
      → All (λ w. sys.file_set (theme_path sys theme) (icon_group w) ≡ true) ws
      → All (ShowsTheme gui) (map icon_of_word ws)
  words-ShowsTheme gui [] t h = tt
  words-ShowsTheme gui (w ∷ ws) t (h, hs) =
      (word-ShowsTheme gui w t h, words-ShowsTheme gui ws t hs)

  -- A theme whose file has the group for users, with the names of its icons joined by single spaces, none
  -- of which has a space, and a group for each of them: the greeter has one image for each name, in their
  -- order, and shows a user with such an image by the theme's file.
  pub theme_icons-ShowsTheme :
      (gui : Gui) (w : Str) (ws : List Str)
      → gui.theme ≡ some theme
      → sys.file_set (theme_path sys theme) user_group ≡ true
      → sys.items (theme_path sys theme) ≡ some (some (join (w ∷ ws)))
      → Spaceless (w ∷ ws)
      → All (λ v. sys.file_set (theme_path sys theme) (icon_group v) ≡ true) (w ∷ ws)
      → (theme_icons_cache_fill sys theme ≡ map icon_of_word (w ∷ ws))
        × All (ShowsTheme gui) (theme_icons_cache_fill sys theme)
  unfolding theme_icons_cache_fill
  theme_icons-ShowsTheme gui w ws t has items free groups =
      let images : theme_icons_cache_fill sys theme ≡ map icon_of_word (w ∷ ws) =
        rw (has, items)
          (ap (λ l. string_to_entrance_image l (some (theme_path sys theme)))
              (stringlist_get-join w ws free)
            ∙ images_of_words (w ∷ ws)) in
      (images, subst (All (ShowsTheme gui)) (sym images) (words-ShowsTheme gui (w ∷ ws) t groups))
