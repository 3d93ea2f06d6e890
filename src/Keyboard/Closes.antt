-- ===== src/Keyboard/Closes.antt =====
-- What entrance_keyboard_init of src/daemon/entrance_keyboard.c leaves, and what it asks for.
use entrance.Keyboard.{
  Xcb, KeyboardConfig, Keyboard, bit_or, keyboard_connect, keyboard_disconnect, indicator_masks_set,
  latch_of, keyboard_update, update_and_disconnect, set_and_update, entrance_keyboard_init,
}
use entrance.Common.{
  ℕ, suc, ◌≡◌, refl, sym, ◌∙◌, ap, inl, inr, true, false, List, ◌∷◌, some, codes, arith,
  if◌then◌else◌, Bool-cases, Option-cases,
}
use entrance.Keyboard.Masks.{LastMask, Answers, set_masks-runs}

-- As many connections were opened as closed, and none is held.
pub record Closed (k : Keyboard) : Type 0 where
  pub balanced : k.opened ≡ k.closed
  pub released : k.connected ≡ false

-- One connection is held.
record Open (k : Keyboard) : Type 0 where
  balanced : k.opened ≡ suc k.closed
  held : k.connected ≡ true

module _ (xcb : Xcb) where
  -- The server answers each request before the locks are set, with these indicators.
  pub record Ready (atoms : List ℕ) : Type 0 where
    pub connect : xcb.connect ≡ true
    pub extension : xcb.extension_error ≡ false
    pub reply : xcb.indicator_names ≡ some atoms
    pub names : xcb.names_error ≡ false

  -- The one request: it affects both locks, and sets those that are configured.
  pub record Requested (conf : KeyboardConfig) (atoms : List ℕ) (k l : Keyboard) : Type 0 where
    pub num : ℕ
    pub caps : ℕ
    pub num_mask : LastMask xcb (codes "Num Lock") 0 atoms k.mask_numlock num
    pub caps_mask : LastMask xcb (codes "Caps Lock") 0 atoms k.mask_capslock caps
    pub latched :
        l.latched
        ≡ record {
          affect = bit_or 8 num caps;
          locks = bit_or 8 (if conf.numlock then num else 0) (if conf.capslock then caps else 0);
        }
          ∷ k.latched

  -- The requests of a run from `k`: none, or one when the server answered what comes before it.
  pub data Requests (conf : KeyboardConfig) (k l : Keyboard) : Type 0 where
    unasked : ((atoms : List ℕ) → ¬ Ready atoms) → l.latched ≡ k.latched → Requests conf k l
    asked : {atoms : List ℕ} → Ready atoms → Requested conf atoms k l → Requests conf k l

  -- A run's end.
  pub record Finished (conf : KeyboardConfig) (k l : Keyboard) : Type 0 where
    pub ended : Closed l
    pub requests : Requests conf k l

  module _ (conf : KeyboardConfig) where
    -- The part after the connection, from an open one.
    updated :
        (atoms : List ℕ) (k : Keyboard)
        → Open k
        → Ready atoms
        → Answers xcb atoms
        → (l : Keyboard) × ((set_and_update xcb conf k ≡ some (tt, l)) × Finished conf k l)
    unfolding set_and_update indicator_masks_set update_and_disconnect keyboard_update
        keyboard_disconnect latch_of
    updated atoms k o r h =
        let (j, (run, p)) = set_masks-runs xcb 0 atoms k h in
        let reply = r.reply in
        let names = r.names in
        let still : j.connected ≡ true = p.connected ∙ o.held in
        (
          record j {
            latched = latch_of xcb conf j ∷ j.latched;
            connected = false;
            closed = suc j.closed;
          },
          (
            ground arith,
            record {
              ended = record {
                balanced = p.opened ∙ (o.balanced ∙ ap suc (sym p.closed));
                released = refl;
              };
              requests = asked r (record {
                num = j.mask_numlock;
                caps = j.mask_capslock;
                num_mask = p.num;
                caps_mask = p.caps;
                latched = ap (◌∷◌ (latch_of xcb conf j)) p.latched;
              });
            },
          ),
        )

    -- The connection is given up for an answer that is missing.
    given_up :
        (k : Keyboard)
        → Open k
        → ((atoms : List ℕ) → ¬ Ready atoms)
        → indicator_masks_set xcb k ≡ keyboard_disconnect k
        → (l : Keyboard) × ((set_and_update xcb conf k ≡ some (tt, l)) × Finished conf k l)
    unfolding set_and_update keyboard_disconnect
    given_up k o unready e = (
      record k { connected = false; closed = suc k.closed },
      (
        ground arith,
        record {
          ended = record { balanced = o.balanced; released = refl };
          requests = unasked unready refl;
        },
      ),
    )

    connected_runs :
        (k : Keyboard)
        → Open k
        → xcb.connect ≡ true
        → xcb.extension_error ≡ false
        → ((atoms : List ℕ) → xcb.indicator_names ≡ some atoms → Answers xcb atoms)
        → (l : Keyboard) × ((set_and_update xcb conf k ≡ some (tt, l)) × Finished conf k l)
    unfolding indicator_masks_set
    connected_runs k o c x h = elim (Option-cases xcb.indicator_names) [
      | inl no_reply ↦
          given_up k o (λ atoms r. let e = r.reply in cc) (rw (no_reply, indicator_masks_set) refl)
      | inr (atoms, reply) ↦ elim (Bool-cases xcb.names_error) [
        | inl y ↦
            given_up k o (λ atoms r. let e = r.names in cc)
              (rw (reply, y, indicator_masks_set) refl)
        | inr n ↦
            updated atoms k o (record { connect = c; extension = x; reply = reply; names = n })
              (h atoms reply)
      ]
    ]

    -- With as many connections opened as closed and none held, when the server has a name for each
    -- indicator's atom and answers the requests for masks, by an error at least, the set-up of the lock keys
    -- ends with every connection closed and none held. It makes one request if the connection, the
    -- extension and the indicators' names are there, and none otherwise. The request affects Num Lock and
    -- Caps Lock, and sets those of the two that are configured: each lock's mask is that of the last
    -- indicator with the lock's name, its modifiers' low byte, or 0 for an error, and the mask from before
    -- when no indicator has the name.
    pub entrance_keyboard_init_total :
        (k : Keyboard)
        → Closed k
        → ((atoms : List ℕ) → xcb.indicator_names ≡ some atoms → Answers xcb atoms)
        → (l : Keyboard) × ((entrance_keyboard_init xcb conf k ≡ some (tt, l)) × Finished conf k l)
    unfolding entrance_keyboard_init keyboard_connect keyboard_disconnect
    entrance_keyboard_init_total k c h = elim (Bool-cases xcb.connect) [
      | inr n ↦ (
        record k { connected = false },
        (
          rw n refl,
          record {
            ended = record { balanced = c.balanced; released = refl };
            requests = unasked (λ atoms r. let e = r.connect in cc) refl;
          },
        ),
      )
      | inl y ↦ elim (Bool-cases xcb.extension_error) [
        | inl bad ↦ (
          record k { connected = false; opened = suc k.opened; closed = suc k.closed },
          (
            rw (y, bad) refl,
            record {
              ended = record { balanced = ap suc c.balanced; released = refl };
              requests = unasked (λ atoms r. let e = r.extension in cc) refl;
            },
          ),
        )
        | inr good ↦
            let o = record k { connected = true; opened = suc k.opened } in
            let (l, (run, f)) =
              connected_runs o (record { balanced = ap suc c.balanced; held = refl }) y good h in
            (l, (rw (y, good) run, record { ended = f.ended; requests = moved k l f.requests }))
      ]
    ]
      where
        moved :
            (k l : Keyboard)
            → Requests conf (record k { connected = true; opened = suc k.opened }) l
            → Requests conf k l
        moved k l (unasked n e) = unasked n e
        moved k l (asked r q) = asked r (record {
          num = q.num;
          caps = q.caps;
          num_mask = q.num_mask;
          caps_mask = q.caps_mask;
          latched = q.latched;
        })
