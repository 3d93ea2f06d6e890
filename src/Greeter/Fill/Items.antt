-- ===== src/Greeter/Fill/Items.antt =====
-- What filling a widget leaves: src/bin/entrance_fill.c.
use entrance.Greeter.Fill.{
  in_grid, in_selector, Item, TextGet, Filling, add_item, fill_grid_items, fill_gengrid, item_icon,
  ask_text, free_text, fill_selector_item, fill_selector_items, fill_hoversell,
  fill_hoversell_func_cb, is_grid, is_selector, entrance_fill,
}
use entrance.Common.{
  ℕ, zero, suc, ◌-◌, ◌≡◌, refl, sym, ◌∙◌, ap, inl, inr, true, false, List, [], ◌∷◌, ◌++◌, map,
  Option, none, some, Str, arith, Bool-cases, get_elem?, if◌then◌else◌, All,
}
use mathlib.Core.List.{append_assoc, append-nil}

abbrev pub or_null : Option (Option Str) → Option Str
or_null none = none
or_null (some o) = o

module _ {A : Type 0} where
  -- The items for contents.
  abbrev pub grid_item : A → Item A
  grid_item x = record { content = x; shown = in_grid }

  abbrev pub item_with : A → Option Str → Option Str → Item A
  item_with x label icon = record { content = x; shown = in_selector label (item_icon icon) }

  abbrev pub selector_item : TextGet A → A → Item A
  selector_item text_get x = item_with x (or_null (text_get false x)) (or_null (text_get true x))

  -- A widget with these items more; no string was kept.
  abbrev pub filled : (A → Item A) → List A → Filling A → Filling A
  filled item xs s = record s { items = s.items ++ map item xs; reported = s.reported ++ xs }

  -- A content whose two texts can be asked for.
  abbrev pub HasTexts : TextGet A → A → Type 0
  HasTexts text_get x =
      ((o : Option Str) × (text_get false x ≡ some o))
      × ((o : Option Str) × (text_get true x ≡ some o))

  -- One item more, with the strings that are left.
  abbrev with_item : A → Option Str → Option Str → ℕ → Filling A → Filling A
  with_item x o i n s = record s {
    items = s.items ++ item_with x o i ∷ [];
    reported = s.reported ++ x ∷ [];
    allocated = n;
  }

  same_count :
      (x : A) (o i : Option Str) (s : Filling A) (n : ℕ)
      → n ≡ s.allocated
      → ◌≡◌ {A = Option (Unit {0} × Filling A)}
          (some (tt, with_item x o i n s))
          (some (tt, with_item x o i s.allocated s))
  same_count x o i s n e = ap (λ k. some (tt, with_item x o i k s)) e

  -- The texts that are given for an item.
  abbrev given : Option (Option Str) → Option (Option Str) → TextGet A
  given o i true x = i
  given o i false x = o

  item_given :
      (x : A) (s : Filling A) (o i : Option Str)
      → fill_selector_item (given (some o) (some i)) x s ≡ some (tt, with_item x o i s.allocated s)
  unfolding fill_selector_item ask_text add_item free_text
  item_given x s none none = refl
  item_given x s none (some u) = same_count x none (some u) s (suc s.allocated - 1) (omega arith)
  item_given x s (some t) none = same_count x (some t) none s (suc s.allocated - 1) (omega arith)
  item_given x s (some t) (some u) =
      same_count x (some t) (some u) s (suc (suc s.allocated) - 1 - 1) (omega arith)

  item_filled_with :
      (text_get : TextGet A) (x : A) (s : Filling A) (o i : Option Str)
      → text_get false x ≡ some o
      → text_get true x ≡ some i
      → fill_selector_item text_get x s ≡ some (tt, with_item x o i s.allocated s)
  unfolding fill_selector_item ask_text
  item_filled_with text_get x s o i e f =
      ap (λ a. fill_selector_item (given a (text_get true x)) x s) e
      ∙ (ap (λ b. fill_selector_item (given (some o) b) x s) f ∙ item_given x s o i)

  item_filled :
      (text_get : TextGet A) (x : A) (s : Filling A)
      → HasTexts text_get x
      → fill_selector_item text_get x s ≡ some (tt, filled (selector_item text_get) (x ∷ []) s)
  item_filled text_get x s ((o, e), (i, f)) =
      let at : item_with x o i ≡ selector_item text_get x =
        ap (λ a. item_with x (or_null a) i) (sym e)
        ∙ ap (λ a. item_with x (or_null (text_get false x)) (or_null a)) (sym f) in
      item_filled_with text_get x s o i e f
      ∙ ap
          (λ it.
            some (tt, record s { items = s.items ++ it ∷ []; reported = s.reported ++ x ∷ [] }))
          at

  -- Items that are added one by one.
  filled_more :
      (item : A → Item A) (x : A) (xs : List A) (s : Filling A)
      → filled item xs (filled item (x ∷ []) s) ≡ filled item (x ∷ xs) s
  filled_more item x xs s =
      ap (λ l. record s { items = l; reported = (s.reported ++ x ∷ []) ++ xs })
        (append_assoc s.items (item x ∷ []) (map item xs))
      ∙ ap (λ l. record s { items = s.items ++ item x ∷ map item xs; reported = l })
          (append_assoc s.reported (x ∷ []) xs)

  filled_none : (item : A → Item A) (s : Filling A) → filled item [] s ≡ s
  filled_none item s =
      ap (λ l. record s { items = l; reported = s.reported ++ [] }) (append-nil s.items)
      ∙ ap (λ l. record s { reported = l }) (append-nil s.reported)

  grid_filled :
      (xs : List A) (s : Filling A) → fill_grid_items xs s ≡ some (tt, filled grid_item xs s)
  unfolding fill_grid_items add_item
  grid_filled [] s = ap (λ t. some (tt, t)) (sym (filled_none grid_item s))
  grid_filled (x ∷ xs) s =
      grid_filled xs (filled grid_item (x ∷ []) s)
      ∙ ap (λ t. some (tt, t)) (filled_more grid_item x xs s)

  selector_filled :
      (text_get : TextGet A) (xs : List A) (s : Filling A)
      → All (HasTexts text_get) xs
      → fill_selector_items text_get xs s ≡ some (tt, filled (selector_item text_get) xs s)
  unfolding fill_selector_items
  selector_filled text_get [] s h =
      ap (λ t. some (tt, t)) (sym (filled_none (selector_item text_get) s))
  selector_filled text_get (x ∷ xs) s (h, hs) =
      ap
        (λ (o : Option (Unit {0} × Filling A)). elim o as (λ _. Option (Unit {0} × Filling A)) [
          | none ↦ none
          | some (u, t) ↦ fill_selector_items text_get xs t
        ])
        (item_filled text_get x s h)
      ∙ (selector_filled text_get xs (filled (selector_item text_get) (x ∷ []) s) hs
          ∙ ap (λ t. some (tt, t)) (filled_more (selector_item text_get) x xs s))

  -- What a widget of a type shows after the fill.
  abbrev pub shown_in : Str → TextGet A → List A → Filling A → Filling A
  shown_in type text_get xs s =
      if is_grid type
      then record (filled grid_item xs s) { has_class = true }
      else if is_selector type
      then record (filled (selector_item text_get) xs s) { selects = true }
      else s

  -- When the texts of all contents can be asked for, a fill ends without a fault: a grid and a selector
  -- get one item for each content, in their order, with its texts and icon, and the caller's function is
  -- called for each; a widget of another type is left alone; and every text that was allocated is freed.
  pub entrance_fill-shown_in :
      (type : Str) (text_get : TextGet A) (xs : List A) (s : Filling A)
      → All (HasTexts text_get) xs
      → entrance_fill (some type) (some text_get) xs s ≡ some (tt, shown_in type text_get xs s)
  unfolding entrance_fill fill_gengrid fill_hoversell
  entrance_fill-shown_in type text_get xs s h = elim (Bool-cases (is_grid type)) [
    | inl y ↦ rw y (grid_filled xs (record s { has_class = true }))
    | inr n ↦ elim (Bool-cases (is_selector type)) [
      | inl y ↦ rw (n, y) (selector_filled text_get xs (record s { selects = true }) h)
      | inr m ↦ rw (n, m) refl
    ]
  ]

  nth_content :
      (item : A → Item A) (content : (x : A) → (item x).content ≡ x) (xs : List A) (i : ℕ)
      → elim (get_elem? (map item xs) i) as (λ _. Option A) [
        | none ↦ none
        | some it ↦ some it.content
      ]
        ≡ get_elem? xs i
  nth_content item content [] i = refl
  nth_content item content (x ∷ xs) zero = ap some (content x)
  nth_content item content (x ∷ xs) (suc i) = nth_content item content xs i

  -- In a selector that was empty and that is filled with contents whose texts can all be asked for, the
  -- selection of an item calls the selector's function with the content of the same number, and the
  -- selection of no item with none.
  pub entrance_fill-selects :
      (type : Str) (text_get : TextGet A) (xs : List A) (s : Filling A)
      → All (HasTexts text_get) xs
      → is_grid type ≡ false
      → is_selector type ≡ true
      → s.items ≡ []
      → (t : Filling A) × ((entrance_fill (some type) (some text_get) xs s ≡ some (tt, t))
          × ((i : ℕ) → fill_hoversell_func_cb i t ≡ get_elem? xs i))
  unfolding fill_hoversell_func_cb
  entrance_fill-selects type text_get xs s h n y empty =
      let t = record (filled (selector_item text_get) xs s) { selects = true } in
      (
        t,
        (
          entrance_fill-shown_in type text_get xs s h ∙ rw (n, y) refl,
          λ i.
              ap
                (λ l. elim (get_elem? (l ++ map (selector_item text_get) xs) i) as (λ _. Option A) [
                  | none ↦ none
                  | some it ↦ some it.content
                ])
                empty
              ∙ nth_content (selector_item text_get) (λ x. refl) xs i,
        ),
      )
