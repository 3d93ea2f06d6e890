-- ===== src/Pam/Open.antt =====
-- `entrance_pam_session_open` of src/daemon/entrance_pam.c, on each answer of the library.
use entrance.Common.{
  ℕ, true, false, ◌≡◌, inl, inr, [], ◌∷◌, none, some, arith, slot_get, Bool-cases,
  slot_get-slot_set, slot_set-slot_set, slot_set, if◌then◌else◌,
}
use entrance.Pam.{
  PamLib, Pam, PamState, success, pam_setcred, pam_open_session, pam_end, establish_cred,
  delete_cred, is_success, entrance_pam_session_open,
}

module _ (lib : PamLib) (id : ℕ) where
  -- When the credentials are refused, the session is not asked for and the failure is reported.
  session_refused :
      (s : PamState) (p : Pam)
      → slot_get s.pams id ≡ some p
      → let c = pam_setcred p.handle establish_cred in
        is_success (lib.result s.calls c) ≡ false
        → entrance_pam_session_open lib id s
          ≡ some (
            true,
            record {
              pams = slot_set s.pams id (record p { last_result = lib.result s.calls c });
              calls = c ∷ s.calls;
            },
          )
  unfolding entrance_pam_session_open
  session_refused s p e h = ground arith

  session_opened :
      (s : PamState) (p : Pam)
      → slot_get s.pams id ≡ some p
      → let c = pam_setcred p.handle establish_cred in
        let o = pam_open_session p.handle in
        let r = lib.result (c ∷ s.calls) o in
        is_success (lib.result s.calls c) ≡ true
        → is_success r ≡ true
        → entrance_pam_session_open lib id s
          ≡ some (
            false,
            record {
              pams = slot_set s.pams id (record p { last_result = r; opened = true });
              calls = o ∷ c ∷ s.calls;
            },
          )
  unfolding entrance_pam_session_open
  session_opened s p e h k =
      let r =
        lib.result (pam_setcred p.handle establish_cred ∷ s.calls) (pam_open_session p.handle) in
      let q1 : Pam = record p { last_result = success } in
      let q2 : Pam = record p { last_result = r } in
      ground (
        arith,
        slot_get-slot_set s.pams id q1 e,
        slot_set-slot_set s.pams id q1 q2,
        slot_get-slot_set s.pams id q2 e,
        slot_set-slot_set s.pams id q2 (record q2 { opened = true }),
      )

  session_unreported :
      (s : PamState) (p : Pam)
      → slot_get s.pams id ≡ some p
      → let c = pam_setcred p.handle establish_cred in
        let o = pam_open_session p.handle in
        let d = pam_setcred p.handle delete_cred in
        let r = lib.result (c ∷ s.calls) o in
        is_success (lib.result s.calls c) ≡ true
        → is_success r ≡ false
        → entrance_pam_session_open lib id s
          ≡ some (
            false,
            record {
              pams =
                  slot_set s.pams id
                    (record p { last_result = r; handle = none; msgs = []; opened = true });
              calls = pam_end p.handle r ∷ d ∷ o ∷ c ∷ s.calls;
            },
          )
  unfolding entrance_pam_session_open
  session_unreported s p e h k =
      let r =
        lib.result (pam_setcred p.handle establish_cred ∷ s.calls) (pam_open_session p.handle) in
      let q1 : Pam = record p { last_result = success } in
      let q2 : Pam = record p { last_result = r } in
      let q3 : Pam = record q2 { handle = none; msgs = [] } in
      let q4 : Pam = record q3 { opened = true } in
      ground (
        arith,
        slot_get-slot_set s.pams id q1 e,
        slot_set-slot_set s.pams id q1 q2,
        slot_get-slot_set s.pams id q2 e,
        slot_set-slot_set s.pams id q2 q3,
        slot_get-slot_set s.pams id q3 e,
        slot_set-slot_set s.pams id q3 q4,
      )

  -- Opening a session: refused credentials are reported as 1; a session that the library opens is
  -- reported as 0 with the handle kept; and a session that it refuses is reported as 0 too, with
  -- `opened` set, after the credentials were deleted and the transaction ended.
  pub entrance_pam_session_open_lem :
      (s : PamState) (p : Pam)
      → slot_get s.pams id ≡ some p
      → let c = pam_setcred p.handle establish_cred in
        let o = pam_open_session p.handle in
        let r = lib.result (c ∷ s.calls) o in
        entrance_pam_session_open lib id s ≡ (
          if is_success (lib.result s.calls c)
          then (if is_success r
              then some (
                false,
                record {
                  pams = slot_set s.pams id (record p { last_result = r; opened = true });
                  calls = o ∷ c ∷ s.calls;
                },
              )
              else some (
                false,
                record {
                  pams =
                      slot_set s.pams id
                        (record p { last_result = r; handle = none; msgs = []; opened = true });
                  calls = pam_end p.handle r ∷ pam_setcred p.handle delete_cred ∷ o ∷ c ∷ s.calls;
                },
              ))
          else some (
            true,
            record {
              pams = slot_set s.pams id (record p { last_result = lib.result s.calls c });
              calls = c ∷ s.calls;
            },
          ))
  entrance_pam_session_open_lem s p e =
      let c = pam_setcred p.handle establish_cred in
      let o = pam_open_session p.handle in
      elim (Bool-cases (is_success (lib.result s.calls c))) [
        | inr n ↦ rw (n) (session_refused s p e n)
        | inl y ↦ elim (Bool-cases (is_success (lib.result (c ∷ s.calls) o))) [
          | inl o_y ↦ rw (y, o_y) (session_opened s p e y o_y)
          | inr o_n ↦ rw (y, o_n) (session_unreported s p e y o_n)
        ]
      ]
