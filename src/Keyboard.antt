-- ===== src/Keyboard.antt =====
-- src/daemon/entrance_keyboard.c: the lock keys of the X server's keyboard, set by one connection.
pub mod Closes
pub mod Masks
use entrance.Common.{
  ℕ, zero, suc, ◌+◌, ◌*◌, ◌/◌, ◌%◌, ◌^◌, Bool, true, false, List, [], ◌∷◌, Option, none, some, Str,
  codes, M, ◌>>=◌, ◌>>◌, ret, get, modify, if◌then◌else◌, str_eq, ltb, ◌==◌,
}

-- The answer for an indicator: its modifiers, an error, or neither, as when the connection is broken.
pub data MaskReply : Type 0 where
  mods : ℕ → MaskReply
  error neither : MaskReply

-- What XCB answers: whether it connects, whether the extension's and the names' requests have an error, the
-- indicators' atoms, when there is a reply, the name of an atom, when there is a reply, and the answer for the
-- mask of an indicator.
pub record Xcb : Type 0 where
  pub connect : Bool
  pub extension_error : Bool
  pub indicator_names : Option (List ℕ)
  pub names_error : Bool
  pub atom_name : ℕ → Option Str
  pub indicator_map : ℕ → MaskReply

pub record KeyboardConfig : Type 0 where
  pub numlock : Bool
  pub capslock : Bool

-- The request that latches the locks: the affected ones and those that are set.
pub record Latch : Type 0 where
  pub affect : ℕ
  pub locks : ℕ

pub record Keyboard : Type 0 where
  pub mask_capslock : ℕ
  pub mask_numlock : ℕ
  pub connected : Bool
  pub opened : ℕ
  pub closed : ℕ
  pub latched : List Latch

-- The bitwise or of the low `n` bits.
unfoldable pub bit_or : ℕ → ℕ → ℕ → ℕ
bit_or zero a b = 0
bit_or (suc n) a b =
    let rest = bit_or n (a / 2) (b / 2) in (if a % 2 + b % 2 == 0 then 0 else 1) + 2 * rest

unfoldable pub keyboard_disconnect : M Keyboard (Unit {0})
keyboard_disconnect = modify λ k. record k { connected = false; closed = suc k.closed }

module _ (xcb : Xcb) where
  unfoldable pub keyboard_connect : M Keyboard (Unit {0})
  unfolding keyboard_disconnect
  keyboard_connect =
      if xcb.connect
      then (do
        modify (λ k. record k { connected = true; opened = suc k.opened })
        if xcb.extension_error then keyboard_disconnect else ret tt)
      else modify (λ k. record k { connected = false })

  -- The log of an error that is NULL is a fault.
  unfoldable pub indicator_mask_get : ℕ → Option ℕ
  indicator_mask_get i = elim (xcb.indicator_map (2 ^ i)) [
    | mods m ↦ some (m % 256)
    | error ↦ some 0
    | neither ↦ none
  ]

  abbrev pub set_numlock : Option ℕ → Keyboard → Option Keyboard
  set_numlock none k = none
  set_numlock (some m) k = some (record k { mask_numlock = m })

  abbrev pub set_capslock : Option ℕ → Keyboard → Option Keyboard
  set_capslock none k = none
  set_capslock (some m) k = some (record k { mask_capslock = m })

  -- The masks of the indicator `i` with a name.
  unfoldable pub set_mask : ℕ → Str → Keyboard → Option Keyboard
  unfolding indicator_mask_get str_eq
  set_mask i name k =
      if str_eq name (codes "Num Lock")
      then set_numlock (indicator_mask_get i) k
      else if str_eq name (codes "Caps Lock")
      then set_capslock (indicator_mask_get i) k
      else some k

  -- The loop from the indicator `i`. The comparison of a NULL name is a fault.
  unfoldable pub set_masks : ℕ → List ℕ → M Keyboard (Unit {0})
  unfolding set_mask
  set_masks i [] k = some (tt, k)
  set_masks i (atom ∷ atoms) k = elim (xcb.atom_name atom) [
    | none ↦ none
    | some name ↦ elim (set_mask i name k) [ none ↦ none | some l ↦ set_masks (suc i) atoms l ]
  ]

  unfoldable pub indicator_masks_set : M Keyboard (Unit {0})
  unfolding keyboard_disconnect set_masks
  indicator_masks_set = elim xcb.indicator_names [
    | none ↦ keyboard_disconnect
    | some atoms ↦ if xcb.names_error then keyboard_disconnect else set_masks 0 atoms
  ]

  unfoldable pub latch_of : KeyboardConfig → Keyboard → Latch
  unfolding bit_or
  latch_of conf k = record {
    affect = bit_or 8 k.mask_numlock k.mask_capslock;
    locks =
        bit_or 8 (if conf.numlock then k.mask_numlock else 0)
          (if conf.capslock then k.mask_capslock else 0);
  }

  unfoldable pub keyboard_update : KeyboardConfig → M Keyboard (Unit {0})
  unfolding latch_of
  keyboard_update conf = modify λ k. record k { latched = latch_of conf k ∷ k.latched }

  unfoldable pub update_and_disconnect : KeyboardConfig → M Keyboard (Unit {0})
  unfolding keyboard_update keyboard_disconnect
  update_and_disconnect conf = do keyboard_update conf; keyboard_disconnect

  unfoldable pub set_and_update : KeyboardConfig → M Keyboard (Unit {0})
  unfolding indicator_masks_set update_and_disconnect
  set_and_update conf = do
    indicator_masks_set
    k ← get
    if k.connected then update_and_disconnect conf else ret tt

  unfoldable pub entrance_keyboard_init : KeyboardConfig → M Keyboard (Unit {0})
  unfolding keyboard_connect set_and_update
  entrance_keyboard_init conf = do
    keyboard_connect
    k ← get
    if k.connected then set_and_update conf else ret tt
