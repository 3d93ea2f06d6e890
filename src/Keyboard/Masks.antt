-- ===== src/Keyboard/Masks.antt =====
-- The loop over the indicators of src/daemon/entrance_keyboard.c: which mask each lock gets.
use entrance.Keyboard.{
  Xcb, MaskReply, mods, error, neither, Keyboard, indicator_mask_get, set_mask, set_masks,
}
use entrance.Common.{
  ℕ, suc, ◌^◌, ◌%◌, ◌≡◌, ◌≢◌, refl, ◌∙◌, ap, inl, inr, false, List, [], ◌∷◌, some, Str, codes,
  arith, str_eq, str_eq_iff, Bool-cases, All,
}

module _ (xcb : Xcb) where
  -- The mask of the indicator `i`: the low byte of its modifiers, or 0 for an error.
  pub data MaskAt (i m : ℕ) : Type 0 where
    replied : {all : ℕ} → xcb.indicator_map (2 ^ i) ≡ mods all → m ≡ all % 256 → MaskAt i m
    failed : xcb.indicator_map (2 ^ i) ≡ error → m ≡ 0 → MaskAt i m

  -- The mask, after it was `old`, of the last of some indicators, from `i` on, that has a name.
  pub data LastMask (name : Str) : ℕ → List ℕ → ℕ → ℕ → Type 0 where
    no_more : {i old new : ℕ} → new ≡ old → LastMask name i [] old new
    named :
        {i atom old m new : ℕ} {atoms : List ℕ}
        → xcb.atom_name atom ≡ some name
        → MaskAt i m
        → LastMask name (suc i) atoms m new
        → LastMask name i (atom ∷ atoms) old new
    other_name :
        {i atom old new : ℕ} {atoms : List ℕ}
        → xcb.atom_name atom ≢ some name
        → LastMask name (suc i) atoms old new
        → LastMask name i (atom ∷ atoms) old new

  -- The server has a name for each of the atoms, and answers the requests for masks, by an error at least.
  pub record Answers (atoms : List ℕ) : Type 0 where
    pub all_named : All (λ atom. (name : Str) × (xcb.atom_name atom ≡ some name)) atoms
    pub masks : (i : ℕ) → xcb.indicator_map i ≢ neither

  -- What the loop over the indicators leaves.
  pub record Looped (i : ℕ) (atoms : List ℕ) (k l : Keyboard) : Type 0 where
    pub connected : l.connected ≡ k.connected
    pub opened : l.opened ≡ k.opened
    pub closed : l.closed ≡ k.closed
    pub latched : l.latched ≡ k.latched
    pub num : LastMask (codes "Num Lock") i atoms k.mask_numlock l.mask_numlock
    pub caps : LastMask (codes "Caps Lock") i atoms k.mask_capslock l.mask_capslock

  mask_get-at :
      (i : ℕ)
      → ((j : ℕ) → xcb.indicator_map j ≢ neither)
      → (m : ℕ) × ((indicator_mask_get xcb i ≡ some m) × MaskAt i m)
  unfolding indicator_mask_get
  mask_get-at i h = by_reply (xcb.indicator_map (2 ^ i)) refl
    where
      by_reply :
          (r : MaskReply)
          → xcb.indicator_map (2 ^ i) ≡ r
          → (m : ℕ) × ((indicator_mask_get xcb i ≡ some m) × MaskAt i m)
      by_reply (mods all) e = (all % 256, (rw (e, indicator_mask_get) refl, replied e refl))
      by_reply error e = (0, (rw (e, indicator_mask_get) refl, failed e refl))
      by_reply neither e = absurd (h (2 ^ i) e)

  num_ne_caps : codes "Num Lock" ≢ codes "Caps Lock"
  num_ne_caps e = cc

  -- A step of the loop, by the name of the indicator.
  loop-cons :
      (i atom : ℕ) (name : Str) (k : Keyboard)
      → xcb.atom_name atom ≡ some name
      → ((j : ℕ) → xcb.indicator_map j ≢ neither)
      → (l : Keyboard) × ((set_mask xcb i name k ≡ some l)
          × ((atoms : List ℕ) (t : Keyboard)
              → Looped (suc i) atoms l t
              → Looped i (atom ∷ atoms) k t))
  unfolding set_mask
  loop-cons i atom name k e h =
      let (m, (got, at)) = mask_get-at i h in
      elim (Bool-cases (str_eq name (codes "Num Lock"))) [
        | inl y ↦
            let is : name ≡ codes "Num Lock" = (str_eq_iff name (codes "Num Lock")).0 y in
            (
              record k { mask_numlock = m },
              (
                rw (y, got) refl,
                λ atoms t p. record {
                  connected = p.connected;
                  opened = p.opened;
                  closed = p.closed;
                  latched = p.latched;
                  num = named (e ∙ ap some is) at p.num;
                  caps = other_name (λ q. num_ne_caps (cc)) p.caps;
                },
              ),
            )
        | inr n ↦ elim (Bool-cases (str_eq name (codes "Caps Lock"))) [
          | inl y ↦
              let is : name ≡ codes "Caps Lock" = (str_eq_iff name (codes "Caps Lock")).0 y in
              (
                record k { mask_capslock = m },
                (
                  rw (n, y, got) refl,
                  λ atoms t p. record {
                    connected = p.connected;
                    opened = p.opened;
                    closed = p.closed;
                    latched = p.latched;
                    num = other_name (λ q. num_ne_caps (cc)) p.num;
                    caps = named (e ∙ ap some is) at p.caps;
                  },
                ),
              )
          | inr o ↦ (
            k,
            (
              rw (n, o) refl,
              λ atoms t p. record {
                connected = p.connected;
                opened = p.opened;
                closed = p.closed;
                latched = p.latched;
                num = other_name (λ q. unlike name (codes "Num Lock") n (cc)) p.num;
                caps = other_name (λ q. unlike name (codes "Caps Lock") o (cc)) p.caps;
              },
            ),
          )
        ]
      ]
    where
      unlike : (a b : Str) → str_eq a b ≡ false → a ≡ b → ⊥
      unlike a b n q = let y = (str_eq_iff a b).1 q in cc

  pub set_masks-runs :
      (i : ℕ) (atoms : List ℕ) (k : Keyboard)
      → Answers atoms
      → (l : Keyboard) × ((set_masks xcb i atoms k ≡ some (tt, l)) × Looped i atoms k l)
  unfolding set_masks
  set_masks-runs i [] k h = (
    k,
    (
      refl,
      record {
        connected = refl;
        opened = refl;
        closed = refl;
        latched = refl;
        num = no_more refl;
        caps = no_more refl;
      },
    ),
  )
  set_masks-runs i (atom ∷ atoms) k h =
      let ((name, e), hs) = h.all_named in
      let (l, (step, cons)) = loop-cons i atom name k e h.masks in
      let (t, (rest, p)) =
        set_masks-runs (suc i) atoms l (record { all_named = hs; masks = h.masks }) in
      (t, (ground arith, cons atoms t p))
