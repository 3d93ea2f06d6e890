-- ===== src/Greeter/Images.antt =====
-- The random images of src/bin/entrance_gui.c: a background and a user's icon.
use native.Mathlib.Nat.{mod-lt}
use entrance.History.{EntranceLogin}
use entrance.Image.{Image}
use entrance.Greeter.Defs.{Gui, user_of}
use entrance.Greeter.Gui.{
  entrance_gui_user_get, backgrounds_of, icons_of, path_at, background_choice,
  background_random_get, without_group, user_icon_random_get,
}
use entrance.Common.{
  ℕ, zero, suc, ◌+◌, ◌-◌, ◌%◌, ◌<◌, ◌≡◌, refl, sym, ◌∙◌, ap, subst, ◌⊎◌, inl, inr, true, false,
  List, [], ◌∷◌, ◌++◌, Option, none, some, Str, arith, ◌==◌, ltb, Bool-cases, length, length-append,
  get_elem?, get_elem?-lt, is_some, ne_of_==,
}

get_elem?-append_left :
    {A : Type 0} (xs ys : List A) (i : ℕ) → i < length xs → get_elem? (xs ++ ys) i ≡ get_elem? xs i
get_elem?-append_left [] ys i h = absurd (omega arith)
get_elem?-append_left (x ∷ xs) ys zero h = refl
get_elem?-append_left (x ∷ xs) ys (suc i) h = get_elem?-append_left xs ys i (omega arith)

get_elem?-append_right :
    {A : Type 0} (xs ys : List A) (i j : ℕ)
    → i ≡ length xs + j
    → get_elem? (xs ++ ys) i ≡ get_elem? ys j
get_elem?-append_right [] ys i j h = ap (get_elem? ys) (omega arith)
get_elem?-append_right (x ∷ xs) ys zero j h = absurd (omega arith)
get_elem?-append_right (x ∷ xs) ys (suc i) j h = get_elem?-append_right xs ys i j (omega arith)

mod_lt : (a n : ℕ) → (n == 0) ≡ false → a % n < n
mod_lt a n h = mod-lt a (omega (arith, ne_of_== n 0 h))

-- The backgrounds that a user's screen may show: the user's own and the system's.
abbrev pub background_pool_of : Gui → Option Str → List Image
background_pool_of gui none = gui.background_pool
background_pool_of gui (some username) =
    backgrounds_of (user_of gui.users username) ++ gui.background_pool

-- A choice from a pool by a random number: none of an empty one.
pub data ChosenPath (pool : List Image) (rand : ℕ) : Option (Option Str) → Type 0 where
  nothing : length pool ≡ 0 → ChosenPath pool rand (some none)
  chosen :
      {img : Image}
      → get_elem? pool (rand % length pool) ≡ some img
      → ChosenPath pool rand (some img.path)

-- Where the number falls in two lists one after the other.
data Place (xs ys : List Image) (r : ℕ) : Type 0 where
  left :
      {img : Image}
      → ltb r (length xs) ≡ true
      → get_elem? xs r ≡ some img
      → get_elem? (xs ++ ys) r ≡ some img
      → Place xs ys r
  right :
      {img : Image}
      → ltb r (length xs) ≡ false
      → get_elem? ys (r - length xs) ≡ some img
      → get_elem? (xs ++ ys) r ≡ some img
      → Place xs ys r

place : (xs ys : List Image) (r : ℕ) → r < length xs + length ys → Place xs ys r
place xs ys r h = elim (Bool-cases (ltb r (length xs))) [
  | inl y ↦
      let inside : r < length xs = ground arith in
      let (img, e) = get_elem?-lt xs r inside in left y e (get_elem?-append_left xs ys r inside ∙ e)
  | inr n ↦
      let after : r ≡ length xs + (r - length xs) = ground arith in
      let (img, e) = get_elem?-lt ys (r - length xs) (ground arith) in
      right n e (get_elem?-append_right xs ys r (r - length xs) after ∙ e)
]

at_path :
    (images : List Image) (r : ℕ) (img : Image)
    → get_elem? images r ≡ some img
    → path_at images r ≡ some img.path
at_path images r img e = ground arith

choice-ChosenPath :
    (rand : ℕ) (el : Option EntranceLogin) (sys : List Image)
    → ChosenPath (backgrounds_of el ++ sys) rand (background_choice rand el sys)
unfolding background_choice
choice-ChosenPath rand el sys = by_max (Bool-cases (length (backgrounds_of el) + length sys == 0))
  where
    count : length (backgrounds_of el ++ sys) ≡ length (backgrounds_of el) + length sys
    count = length-append (backgrounds_of el) sys

    known :
        (o : Option EntranceLogin) (r : ℕ)
        → ltb r (length (backgrounds_of o)) ≡ true
        → is_some o ≡ true
    known none r h = ground arith
    known (some eu) r h = refl

    by_place :
        (length (backgrounds_of el) + length sys == 0) ≡ false
        → rand % (length (backgrounds_of el) + length sys) < length (backgrounds_of el) + length sys
        → Place (backgrounds_of el) sys (rand % (length (backgrounds_of el) + length sys))
        → ChosenPath (backgrounds_of el ++ sys) rand (background_choice rand el sys)
    by_place n small (left {img} y e f) =
        let k = known el _ y in
        let q = at_path (backgrounds_of el) _ img e in
        let res : background_choice rand el sys ≡ some img.path = ground arith in
        subst (ChosenPath (backgrounds_of el ++ sys) rand) (sym res)
          (chosen (ap (λ m. get_elem? (backgrounds_of el ++ sys) (rand % m)) count ∙ f))
    by_place n small (right {img} y e f) =
        let q = at_path sys _ img e in
        let res : background_choice rand el sys ≡ some img.path = ground arith in
        subst (ChosenPath (backgrounds_of el ++ sys) rand) (sym res)
          (chosen (ap (λ m. get_elem? (backgrounds_of el ++ sys) (rand % m)) count ∙ f))

    by_max :
        ((length (backgrounds_of el) + length sys == 0) ≡ true)
          ⊎ ((length (backgrounds_of el) + length sys == 0) ≡ false)
        → ChosenPath (backgrounds_of el ++ sys) rand (background_choice rand el sys)
    by_max (inl y) =
        let res : background_choice rand el sys ≡ some none = ground arith in
        let empty : length (backgrounds_of el ++ sys) ≡ 0 = ground (arith, count) in
        subst (ChosenPath (backgrounds_of el ++ sys) rand) (sym res) (nothing empty)
    by_max (inr n) =
        let small = mod_lt rand (length (backgrounds_of el) + length sys) n in
        by_place n small (place (backgrounds_of el) sys _ small)

-- The random background is at the random number's remainder in the user's backgrounds followed by the
-- system's, and there is none when both are empty; no choice is a fault.
pub background_random_get-ChosenPath :
    (rand : ℕ) (gui : Gui) (username : Option Str)
    → ChosenPath (background_pool_of gui username) rand (background_random_get rand gui username)
unfolding background_random_get entrance_gui_user_get
background_random_get-ChosenPath rand gui none = choice-ChosenPath rand none gui.background_pool
background_random_get-ChosenPath rand gui (some username) =
    choice-ChosenPath rand (user_of gui.users username) gui.background_pool

-- The icons that may be shown for a user: the user's own, the system's, and the theme's.
abbrev pub icon_pool_of : Gui → Str → List Image
icon_pool_of gui username =
    icons_of (user_of gui.users username) ++ gui.icon_pool ++ gui.theme_icon_pool

-- The icon that is shown from a pool: one with the path of the image at the remainder, or a fault of an
-- empty pool.
pub data ShownIcon (pool : List Image) (rand : ℕ) : Option Image → Type 0 where
  fault : length pool ≡ 0 → ShownIcon pool rand none
  shown :
      {img o : Image}
      → get_elem? pool (rand % length pool) ≡ some img
      → o.path ≡ img.path
      → ShownIcon pool rand (some o)

without :
    (o : Option Image) (img : Image)
    → o ≡ some img
    → without_group o ≡ some (record img { group = none })
without o img e = ap without_group e

lt_of_get : (xs : List Image) (i : ℕ) (img : Image) → get_elem? xs i ≡ some img → i < length xs
lt_of_get [] i img h = cc
lt_of_get (x ∷ xs) zero img h = omega arith
lt_of_get (x ∷ xs) (suc i) img h = omega (arith, lt_of_get xs i img h)

at_empty : (xs : List Image) (i : ℕ) → length xs ≡ 0 → get_elem? xs i ≡ none
at_empty [] i h = refl
at_empty (x ∷ xs) i h = absurd (omega (arith, h))

-- The icon's choice, with the user's own and the system's icons and the theme's as separate lists.
module _ (rand : ℕ) (gui : Gui) (username : Str) where
  abbrev own : List Image
  own = icons_of (user_of gui.users username)

  abbrev total : ℕ
  total = length own + length gui.icon_pool + length gui.theme_icon_pool

  pool_count : length (own ++ gui.icon_pool ++ gui.theme_icon_pool) ≡ total
  pool_count = omega (
    arith,
    length-append (own ++ gui.icon_pool) gui.theme_icon_pool,
    length-append own gui.icon_pool,
  )

  abbrev Result : Option Image → Type 0
  Result o = ShownIcon (icon_pool_of gui username) rand o

  -- The result is the image at the remainder.
  found :
      (r : ℕ) (img : Image) (o : Image)
      → r ≡ rand % total
      → get_elem? (own ++ gui.icon_pool ++ gui.theme_icon_pool) r ≡ some img
      → user_icon_random_get rand gui username ≡ some o
      → o.path ≡ img.path
      → Result (user_icon_random_get rand gui username)
  found r img o e at res same = subst Result (sym res) (
      shown
        (ap (λ m. get_elem? (own ++ gui.icon_pool ++ gui.theme_icon_pool) (rand % m)) pool_count
          ∙ (ap (get_elem? (own ++ gui.icon_pool ++ gui.theme_icon_pool)) (sym e) ∙ at))
        same)

  known_user :
      (o : Option EntranceLogin) (r : ℕ) → ltb r (length (icons_of o)) ≡ true → is_some o ≡ true
  known_user none r h = ground arith
  known_user (some eu) r h = refl

  by_own :
      (r : ℕ)
      → ltb 0 total ≡ true
      → r ≡ rand % total
      → (img : Image) → get_elem? (own ++ gui.icon_pool ++ gui.theme_icon_pool) r ≡ some img
      → get_elem? (own ++ gui.icon_pool) r ≡ some img
      → Place own gui.icon_pool r
      → Result (user_icon_random_get rand gui username)
  unfolding user_icon_random_get entrance_gui_user_get
  by_own r pos e img at first (left {img = i} y e' f) =
      let k = known_user (user_of gui.users username) r y in
      let w = without (get_elem? own r) i e' in
      let same : i ≡ img = ground arith in
      found r img (record i { group = none }) e at (ground arith) (ap (λ z. z.path) same)
  by_own r pos e img at first (right {img = i} y e' f) =
      let w = without (get_elem? gui.icon_pool (r - length own)) i e' in
      let inside : ltb r (length own + length gui.icon_pool) ≡ true =
        ground (arith, lt_of_get gui.icon_pool (r - length own) i e') in
      let same : i ≡ img = ground arith in
      found r img (record i { group = none }) e at (ground arith) (ap (λ z. z.path) same)

  by_pool :
      (r : ℕ)
      → ltb 0 total ≡ true
      → r ≡ rand % total
      → Place (own ++ gui.icon_pool) gui.theme_icon_pool r
      → Result (user_icon_random_get rand gui username)
  unfolding user_icon_random_get entrance_gui_user_get
  by_pool r pos e (left {img} y e' f) = by_own r pos e img f e' (
      place own gui.icon_pool r (
        ground (arith, lt_of_get (own ++ gui.icon_pool) r img e', length-append own gui.icon_pool)))
  by_pool r pos e (right {img} y e' f) =
      let count : length (own ++ gui.icon_pool) ≡ length own + length gui.icon_pool =
        length-append own gui.icon_pool in
      let beyond : ltb r (length own + length gui.icon_pool) ≡ false = ground arith in
      let at : get_elem? gui.theme_icon_pool (r - (length own + length gui.icon_pool)) ≡ some img =
        ap (λ m. get_elem? gui.theme_icon_pool (r - m)) (sym count) ∙ e' in
      found r img img e f (ground arith) refl

  by_total :
      (ltb 0 total ≡ true) ⊎ (ltb 0 total ≡ false) → Result (user_icon_random_get rand gui username)
  unfolding user_icon_random_get entrance_gui_user_get
  by_total (inl pos) =
      let small : rand % total < total = mod_lt rand total (ground arith) in
      by_pool (rand % total) pos refl (
        place (own ++ gui.icon_pool) gui.theme_icon_pool (rand % total)
          (omega (arith, small, length-append own gui.icon_pool)))
  by_total (inr zero_total) =
      let none_there =
        at_empty gui.theme_icon_pool (0 - (length own + length gui.icon_pool)) (ground arith) in
      let res : user_icon_random_get rand gui username ≡ none = ground arith in
      subst Result (sym res) (fault (pool_count ∙ ground arith))

-- The random icon of a user has the path of the image at the random number's remainder in the user's icons
-- followed by the system's and the theme's; only when all three are empty is the choice a fault, the use of
-- the NULL image.
pub user_icon_random_get-ShownIcon :
    (rand : ℕ) (gui : Gui) (username : Str)
    → ShownIcon (icon_pool_of gui username) rand (user_icon_random_get rand gui username)
user_icon_random_get-ShownIcon rand gui username = by_total rand gui username (Bool-cases _)
