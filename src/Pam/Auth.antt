-- ===== src/Pam/Auth.antt =====
-- `entrance_pam_authenticate` of src/daemon/entrance_pam.c: its result, and what it asks of the library.
use entrance.Common.{
  ℕ, Bool, true, false, ◌≡◌, refl, sym, ◌∙◌, ap, inl, inr, List, ◌∷◌, Option, none, some, Str,
  arith, slot_get, Option-cases, slot_get-slot_set, slot_set-slot_set, slot_set, if◌then◌else◌, not,
}
use entrance.Pam.{
  PamResult, PamCall, PamLib, Pam, PamState, success, pam_authenticate, pam_acct_mgmt, responses,
  is_success, call_conv, entrance_pam_result_check, entrance_pam_authenticate, check_account,
}
use entrance.Pam.Conv.{answers, transcript, entrance_pam_conv_lem}

check_negates :
    (b : Bool) (r : PamResult) (s t : PamState)
    → ◌≡◌ {A = Option (Bool × PamState)}
        (if b then some (entrance_pam_result_check r, s) else some (true, t))
        (if b then some (not (is_success r), s) else some (true, t))
unfolding entrance_pam_result_check
check_negates b success s t = refl
check_negates b _ s t = refl

module _ (lib : PamLib) (id : ℕ) where
  -- The calls after a conversation of the library, and the state after the call that led to it.
  abbrev pub asked : List PamCall → Option Str → PamCall → List PamCall
  asked calls passwd c = responses (answers passwd (lib.messages calls c)) ∷ calls

  abbrev pub replied : List PamCall → Option Str → PamCall → PamResult
  replied calls passwd c = lib.result (asked calls passwd c) c

  abbrev pub after_call : PamState → Pam → PamCall → PamState
  after_call s p c = record {
    pams = slot_set s.pams id (record p {
      msgs = transcript p.msgs (lib.messages s.calls c);
      last_result = replied s.calls p.passwd c;
    });
    calls = c ∷ asked s.calls p.passwd c;
  }

  call_conv_lem :
      (c : PamCall) (s : PamState) (p : Pam)
      → slot_get s.pams id ≡ some p
      → call_conv lib id c s
        ≡ some (
          replied s.calls p.passwd c,
          record {
            pams =
                slot_set s.pams id (record p { msgs = transcript p.msgs (lib.messages s.calls c) });
            calls = c ∷ asked s.calls p.passwd c;
          },
        )
  unfolding call_conv
  call_conv_lem c s p e = ground (arith, entrance_pam_conv_lem id (lib.messages s.calls c) s p e)

  -- The structure after a call that may converse.
  abbrev pub called : PamState → Pam → PamCall → Pam
  called s p c = record p {
    msgs = transcript p.msgs (lib.messages s.calls c);
    last_result = replied s.calls p.passwd c;
  }

  check_account_lem :
      (s : PamState) (p : Pam) (h : Option ℕ)
      → slot_get s.pams id ≡ some p
      → check_account lib id h s
        ≡ some (
          entrance_pam_result_check (replied s.calls p.passwd (pam_acct_mgmt h)),
          after_call s p (pam_acct_mgmt h),
        )
  unfolding check_account
  check_account_lem s p h e =
      let c = pam_acct_mgmt h in
      let q : Pam = record p { msgs = transcript p.msgs (lib.messages s.calls c) } in
      ground (
        arith,
        call_conv_lem c s p e,
        slot_get-slot_set s.pams id q e,
        slot_set-slot_set s.pams id q (called s p c),
      )

  authenticate_step :
      (s : PamState) (p : Pam)
      → slot_get s.pams id ≡ some p
      → let c = pam_authenticate p.handle in
        entrance_pam_authenticate lib id s ≡ (
          if is_success (replied s.calls p.passwd c)
          then check_account lib id p.handle (after_call s p c)
          else some (true, after_call s p c))
  unfolding entrance_pam_authenticate
  authenticate_step s p e =
      let c = pam_authenticate p.handle in
      let q : Pam = record p { msgs = transcript p.msgs (lib.messages s.calls c) } in
      ground (
        arith,
        call_conv_lem c s p e,
        slot_get-slot_set s.pams id q e,
        slot_set-slot_set s.pams id q (called s p c),
      )

  -- On a live transaction, authentication asks the library for the identity with the stored
  -- password and, only if that succeeds, for the account. It returns 0 exactly when both succeed.
  pub entrance_pam_authenticate_lem :
      (s : PamState) (p : Pam)
      → slot_get s.pams id ≡ some p
      → let c = pam_authenticate p.handle in
        let s1 = after_call s p c in
        let d = pam_acct_mgmt p.handle in
        entrance_pam_authenticate lib id s ≡ (
          if is_success (replied s.calls p.passwd c)
          then some (not (is_success (replied s1.calls p.passwd d)), after_call s1 (called s p c) d)
          else some (true, s1))
  entrance_pam_authenticate_lem s p e =
      let c = pam_authenticate p.handle in
      let s1 = after_call s p c in
      rw (authenticate_step s p e) (
        rw
          (check_account_lem s1 (called s p c) p.handle
            (slot_get-slot_set s.pams id (called s p c) e))
          (check_negates (is_success (replied s.calls p.passwd c))
            (replied s1.calls p.passwd (pam_acct_mgmt p.handle)) _ _))

-- After `before`, the calls are an authentication and an account check on one handle, both of which
-- succeeded.
pub record Accepted (lib : PamLib) (before calls : List PamCall) : Type 0 where
  pub handle : Option ℕ
  pub replies : List (Option Str)
  pub account_replies : List (Option Str)
  pub ends :
      calls
      ≡ pam_acct_mgmt handle
        ∷ responses account_replies
        ∷ pam_authenticate handle
        ∷ responses replies
        ∷ before
  pub identified :
      is_success (lib.result (responses replies ∷ before) (pam_authenticate handle)) ≡ true
  pub admitted :
      is_success (
        lib.result
          (responses account_replies ∷ pam_authenticate handle ∷ responses replies ∷ before)
          (pam_acct_mgmt handle))
      ≡ true

authenticate_none :
    (lib : PamLib) (id : ℕ) (s : PamState)
    → slot_get s.pams id ≡ none
    → entrance_pam_authenticate lib id s ≡ none
unfolding entrance_pam_authenticate
authenticate_none lib id s e = ground arith

accepted_calls :
    (b c : Bool) (s1 s2 t : PamState)
    → ◌≡◌ {A = Option (Bool × PamState)}
        (if b then some (not c, s2) else some (true, s1))
        (some (false, t))
    → (b ≡ true) × (c ≡ true) × (s2 ≡ t)
accepted_calls true true s1 s2 t e = (refl, refl, cc)
accepted_calls true false s1 s2 t e = cc
accepted_calls false c s1 s2 t e = cc

-- A granted authentication was accepted by the library.
pub authenticate-Accepted :
    (lib : PamLib) (id : ℕ) (s t : PamState)
    → entrance_pam_authenticate lib id s ≡ some (false, t)
    → Accepted lib s.calls t.calls
authenticate-Accepted lib id s t h = elim (Option-cases (slot_get s.pams id)) [
  | inl n ↦ absurd (none_some (authenticate_none lib id s n) h)
  | inr (p, e) ↦
      let c = pam_authenticate p.handle in
      let s1 = after_call lib id s p c in
      let d = pam_acct_mgmt p.handle in
      let (yes_c, yes_d, same) =
        accepted_calls _ _ s1 (after_call lib id s1 (called lib id s p c) d) t
          (sym (entrance_pam_authenticate_lem lib id s p e) ∙ h) in
      record {
        handle = p.handle;
        replies = answers p.passwd (lib.messages s.calls c);
        account_replies = answers p.passwd (lib.messages s1.calls d);
        ends = ap (λ (x : PamState). x.calls) (sym same);
        identified = yes_c;
        admitted = yes_d;
      }
]
  where
    none_some : {x : Option (Bool × PamState)} → x ≡ none → x ≡ some (false, t) → ⊥
    none_some p q = cc
