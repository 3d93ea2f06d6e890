-- ===== src/Greeter/Screens.antt =====
-- src/bin/entrance_gui.c: the screens that the greeter makes for its window at the start.
use entrance.Common.{
  ℕ, zero, suc, ◌+◌, ◌≤◌, ◌≡◌, refl, ◌∙◌, ap, Bool, true, false, List, [], ◌∷◌, ◌++◌, Option, none,
  some, if◌then◌else◌, ltb, arith, M, ◌>>◌, ret, length, length-append, All,
}

-- Where Xinerama has a screen: its place and its size, as far as they are not negative.
pub record Geometry : Type 0 where
  pub x : ℕ
  pub y : ℕ
  pub w : ℕ
  pub h : ℕ

-- A screen of the greeter: its number, whether it has the login form, and its place.
pub record GuiScreen : Type 0 where
  pub number : ℕ
  pub has_login : Bool
  pub geometry : Geometry

-- `_gui->screens`, and the right and the lower edge of all of them.
pub record Window : Type 0 where
  pub screens : List GuiScreen
  pub ww : ℕ
  pub hh : ℕ

-- The screens' geometry, and whether the login form can be made.
pub record ScreenSystem : Type 0 where
  pub geometry : ℕ → Geometry
  pub can_add_login : Bool

abbrev max : ℕ → ℕ → ℕ
max a b = if ltb b a then a else b

abbrev place : GuiScreen → Window → Window
place screen s = record {
  screens = s.screens ++ screen ∷ [];
  ww = max (screen.geometry.x + screen.geometry.w) s.ww;
  hh = max (screen.geometry.y + screen.geometry.h) s.hh;
}

module _ (sys : ScreenSystem) where
  -- The form of the first screen: without it the screen is freed, while the caller goes on to use it.
  unfoldable pub gui_login_form : ℕ → Option Bool
  gui_login_form zero = if sys.can_add_login then some true else none
  gui_login_form (suc j) = some false

  unfoldable pub init_screen : ℕ → M Window (Unit {0})
  unfolding gui_login_form
  init_screen j s = elim (gui_login_form j) [
    | none ↦ none
    | some login ↦
        some (tt, place (record { number = j; has_login = login; geometry = sys.geometry j }) s)
  ]

  -- The screens from `j` on.
  unfoldable pub init_screens : ℕ → ℕ → M Window (Unit {0})
  unfolding init_screen
  init_screens j zero = ret tt
  init_screens j (suc n) = do init_screen j; init_screens (suc j) n

  -- A screen that lies inside of the window.
  abbrev pub Inside : Window → GuiScreen → Type 0
  Inside t screen =
      (screen.geometry.x + screen.geometry.w ≤ t.ww)
      × (screen.geometry.y + screen.geometry.h ≤ t.hh)

  Inside-wider :
      (t u : Window) (xs : List GuiScreen)
      → t.ww ≤ u.ww
      → t.hh ≤ u.hh
      → All (Inside t) xs
      → All (Inside u) xs
  Inside-wider t u [] a b h = tt
  Inside-wider t u (x ∷ xs) a b ((p, q), h) =
      ((omega (arith, p, a), omega (arith, q, b)), Inside-wider t u xs a b h)

  All-snoc :
      (t : Window) (xs : List GuiScreen) (x : GuiScreen)
      → All (Inside t) xs
      → Inside t x
      → All (Inside t) (xs ++ x ∷ [])
  All-snoc t [] x h p = (p, tt)
  All-snoc t (y ∷ xs) x (q, h) p = (q, All-snoc t xs x h p)

  place-Inside :
      (screen : GuiScreen) (s : Window)
      → All (Inside s) s.screens
      → All (Inside (place screen s)) (place screen s).screens
  place-Inside screen s h =
      let t = place screen s in
      let wide : s.ww ≤ t.ww = ground arith in
      let high : s.hh ≤ t.hh = ground arith in
      All-snoc t s.screens screen (Inside-wider s t s.screens wide high h)
        (ground arith, ground arith)

  -- The window after so many screens more.
  abbrev pub Shows : ℕ → Window → Window → Type 0
  Shows n s t = (length t.screens ≡ length s.screens + n) × All (Inside t) t.screens

  login_later :
      (j n : ℕ) (s : Window)
      → All (Inside s) s.screens
      → (t : Window) × ((init_screens (suc j) n s ≡ some (tt, t)) × Shows n s t)
  unfolding init_screens init_screen gui_login_form
  login_later j zero s h = (s, (refl, (omega arith, h)))
  login_later j (suc n) s h =
      let screen : GuiScreen = record {
        number = suc j;
        has_login = false;
        geometry = sys.geometry (suc j);
      } in
      let u = place screen s in
      let (t, (run, (count, inside))) = login_later (suc j) n u (place-Inside screen s h) in
      (t, (run, (omega (arith, count, length-append s.screens (screen ∷ [])), inside)))

  abbrev pub empty_window : Window
  empty_window = record { screens = []; ww = 0; hh = 0 }

  abbrev first : GuiScreen
  first = record { number = 0; has_login = true; geometry = sys.geometry 0 }

  first_screen :
      (s : Window) → sys.can_add_login ≡ true → init_screen 0 s ≡ some (tt, place first s)
  unfolding init_screen gui_login_form
  first_screen s y = rw y refl

  -- Without the login form the first screen is used after it was freed.
  init_screens_faults :
      (n : ℕ) → sys.can_add_login ≡ false → init_screens 0 (suc n) empty_window ≡ none
  unfolding init_screens init_screen gui_login_form
  init_screens_faults n m = rw m refl

  -- When the login form can be made, the greeter makes as many screens as it is to have, and its window
  -- is wide and high enough for each of them.
  pub init_screens-Shows :
      (n : ℕ)
      → sys.can_add_login ≡ true
      → (t : Window) × ((init_screens 0 (suc n) empty_window ≡ some (tt, t))
          × Shows (suc n) empty_window t)
  unfolding init_screens
  init_screens-Shows n y =
      let u = place first empty_window in
      let (t, (run, (count, inside))) = login_later 0 n u (place-Inside first empty_window tt) in
      let begun : init_screens 0 (suc n) empty_window ≡ init_screens 1 n u =
        ap
          (λ (o : Option (Unit {0} × Window)). elim o as (λ _. Option (Unit {0} × Window)) [
            | none ↦ none
            | some (x, s) ↦ init_screens 1 n s
          ])
          (first_screen empty_window y) in
      (t, (begun ∙ run, (omega (arith, count), inside)))
