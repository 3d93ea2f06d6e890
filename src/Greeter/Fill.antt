-- ===== src/Greeter/Fill.antt =====
-- src/bin/entrance_fill.c: a list of contents is shown in a widget, a grid or a hover selector, with the
-- texts that a function gives for each of them; and the functions that give the texts
-- (src/bin/entrance_login.c, src/bin/entrance_gui.c).
pub mod Items
use entrance.Greeter.Defs.{Xsession, Icon, standard, file}
use entrance.History.{EntranceLogin}
use entrance.Action.{Action}
use entrance.Common.{
  ℕ, zero, suc, ◌+◌, ◌-◌, Bool, true, false, not, ◌&&◌, ◌||◌, List, [], ◌∷◌, ◌++◌, map, Option,
  none, some, Str, codes, str_eq, if◌then◌else◌, ◌==◌, leb, M, ◌>>=◌, ◌>>◌, ret, get, modify,
  get_elem?,
}

-- What an item shows: a grid asks the texts of its class when it is drawn.
pub data Shown : Type 0 where
  in_grid : Shown
  in_selector : Option Str → Option Icon → Shown

pub record Item (A : Type 0) : Type 0 where
  pub content : A
  pub shown : Shown

-- A text of a content, that of the part named `icon` or another; none is a fault, and `some none` NULL.
abbrev pub TextGet : Type 0 → Type 0
TextGet A = Bool → A → Option (Option Str)

-- A widget that is filled, with its `Entrance_Fill`: its items; for which contents the caller's function
-- was called, in their order; the strings that are allocated; whether the class of the grid was made; and
-- whether the selector's function and the widget's fill were set.
pub record Filling (A : Type 0) : Type 0 where
  pub items : List (Item A)
  pub reported : List A
  pub allocated : ℕ
  pub has_class : Bool
  pub selects : Bool

-- The icon of an item: a path that begins with a slash, or none, counts as a file.
unfoldable pub item_icon : Option Str → Option Icon
item_icon none = none
item_icon (some []) = some (standard [])
item_icon (some (c ∷ s)) = some (if c == b'/' then file (c ∷ s) else standard (c ∷ s))

module _ {A : Type 0} where
  unfoldable pub add_item : A → Shown → M (Filling A) (Unit {0})
  add_item x shown = modify λ s. record s {
    items = s.items ++ (record { content = x; shown = shown }) ∷ [];
    reported = s.reported ++ x ∷ [];
  }

  unfoldable pub fill_grid_items : List A → M (Filling A) (Unit {0})
  unfolding add_item
  fill_grid_items [] = ret tt
  fill_grid_items (x ∷ xs) = do add_item x in_grid; fill_grid_items xs

  unfoldable pub fill_gengrid : List A → M (Filling A) (Unit {0})
  unfolding fill_grid_items
  fill_gengrid xs = do modify (λ s. record s { has_class = true }); fill_grid_items xs

  -- A text is allocated unless it is NULL, and freed.
  unfoldable pub ask_text : TextGet A → Bool → A → M (Filling A) (Option Str)
  ask_text text_get icon x s = elim (text_get icon x) [
    | none ↦ none
    | some none ↦ some (none, s)
    | some (some t) ↦ some (some t, record s { allocated = suc s.allocated })
  ]

  unfoldable pub free_text : Option Str → M (Filling A) (Unit {0})
  free_text none = ret tt
  free_text (some t) = modify λ s. record s { allocated = s.allocated - 1 }

  unfoldable pub fill_selector_item : TextGet A → A → M (Filling A) (Unit {0})
  unfolding ask_text add_item free_text item_icon
  fill_selector_item text_get x = do
    str ← ask_text text_get false x
    ic ← ask_text text_get true x
    add_item x (in_selector str (item_icon ic))
    free_text ic
    free_text str

  unfoldable pub fill_selector_items : TextGet A → List A → M (Filling A) (Unit {0})
  unfolding fill_selector_item
  fill_selector_items text_get [] = ret tt
  fill_selector_items text_get (x ∷ xs) = do
    fill_selector_item text_get x
    fill_selector_items text_get xs

  -- Without a function for the texts nothing is filled.
  unfoldable pub fill_hoversell : Option (TextGet A) → List A → M (Filling A) (Unit {0})
  unfolding fill_selector_items
  fill_hoversell none xs = ret tt
  fill_hoversell (some text_get) xs = do
    modify (λ s. record s { selects = true })
    fill_selector_items text_get xs

  -- The content that the selector's function is called with when an item is selected.
  unfoldable pub fill_hoversell_func_cb : ℕ → Filling A → Option A
  fill_hoversell_func_cb i s =
      if s.selects
      then elim (get_elem? s.items i) [ none ↦ none | some it ↦ some it.content ]
      else none

-- `strcasecmp`.
abbrev lower : ℕ → ℕ
lower c = if leb 65 c && leb c 90 then c + 32 else c

unfoldable pub same_name : Str → Str → Bool
unfolding str_eq
same_name a b = str_eq (map lower a) (map lower b)

unfoldable pub is_grid : Str → Bool
unfolding same_name
is_grid type = same_name type (codes "Elm.Gengrid") || same_name type (codes "Elm_Gengrid")

unfoldable pub is_selector : Str → Bool
unfolding same_name
is_selector type = same_name type (codes "Elm.Hoversel") || same_name type (codes "Elm_Hoversel")

-- The widget's type, which is none for a widget that is NULL or has no type.
unfoldable pub entrance_fill :
    {A : Type 0} → Option Str → Option (TextGet A) → List A → M (Filling A) (Unit {0})
unfolding is_grid is_selector fill_gengrid fill_hoversell
entrance_fill none text_get xs = ret tt
entrance_fill (some type) text_get xs =
    if is_grid type
    then fill_gengrid xs
    else if is_selector type
    then fill_hoversell text_get xs
    else ret tt

-- The texts of a session: `strdup` of NULL is a fault.
abbrev duplicate : Option Str → Option (Option Str)
duplicate none = none
duplicate (some s) = some (some s)

unfoldable pub login_xsession_text_get : TextGet Xsession
login_xsession_text_get true xsession = some xsession.icon
login_xsession_text_get false xsession = duplicate xsession.name
