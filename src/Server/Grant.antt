-- ===== src/Server/Grant.antt =====
-- `entrance_session_authenticate` of src/daemon/entrance_session.c: what PAM has answered after it.
use entrance.Pam.{
  PamLib, PamState, PamCall, entrance_pam_authenticate, entrance_pam_start, entrance_pam_passwd_set,
}
use entrance.Pam.Auth.{Accepted, authenticate-Accepted}
use entrance.Pam.Frame.{Grown, start_grows, passwd_set_grows}
use entrance.Session.Defs.{
  Seats, Session, with_pam, entrance_session_authenticate, update, session_at, authenticate_pam,
}
use entrance.Common.{
  ℕ, ◌≡◌, refl, subst, ap, ◌∙◌, Bool, true, false, not, List, [], Option, none, some, Str, arith, M,
  Ensures, ret-Ensures, >>=-Ensures, deref-Ensures, if-Ensures, slot_get, codes, truncate, decimal,
  ◌++◌,
}

-- After the calls of `start` the library accepted an authentication, and the calls up to `now` are
-- later.
abbrev pub AcceptedSince : PamLib → List PamCall → List PamCall → Type 0
AcceptedSince lib start now =
    (before : List PamCall) × (accepted : List PamCall) × Grown start before
    × Accepted lib before accepted
    × Grown accepted now

module _ (lib : PamLib) (strdup : Str → Option Str) (start : List PamCall) where
  Later : Seats → Type 0
  Later s = Grown start s.pam.calls

  -- After a step whose result is `wanted`, PAM has accepted.
  AcceptedIf : Bool → Bool → Seats → Type 0
  AcceptedIf wanted b t = b ≡ wanted → AcceptedSince lib start t.pam.calls

  with_pam-Ensures :
      {A : Type 0} (m : M PamState A) (Q : A → PamState → Type 0)
      → Ensures (λ s. Grown start s.calls) m Q
      → Ensures Later (with_pam m) (λ a t. Q a t.pam)
  unfolding with_pam Later
  with_pam-Ensures {A} m Q k = record { ensures = λ s a t p e. go s a t p (m s.pam) refl e }
    where
      go :
          (s : Seats) (a : A) (t : Seats)
          → Grown start s.pam.calls
          → (o : Option (A × PamState)) → m s.pam ≡ o
          → ◌≡◌ {A = Option (A × Seats)}
              (elim o [ none ↦ none | some (a, p) ↦ some (a, record s { pam = p }) ])
              (some (a, t))
          → Q a t.pam
      go s a t p none q e = cc
      go s a t p (some (b, u)) q e =
          let same : u ≡ t.pam = ground arith in
          let result : b ≡ a = ground arith in
          subst (λ x. Q a x) same (subst (λ x. Q x u) result (k.ensures s.pam b u p q))

  authenticate-Ensures :
      (id : ℕ)
      → Ensures
          (λ s. Grown start s.calls)
          (entrance_pam_authenticate lib id)
          (λ b t. b ≡ false → AcceptedSince lib start t.calls)
  authenticate-Ensures id = record {
    ensures = λ s a t p e r. (
      s.calls,
      t.calls,
      p,
      authenticate-Accepted lib id s t (e ∙ ap (λ x. some (x, t)) r),
      ([], refl),
    );
  }

  refuse : Ensures Later (λ s. some (false, s)) (AcceptedIf true)
  unfolding AcceptedIf Later
  refuse = ret-Ensures false (λ s u e. cc)

  later_at : (id : ℕ) → Ensures Later (session_at id) (λ p. Later)
  unfolding Later
  later_at id = deref-Ensures (λ s. slot_get s.sessions id) (λ s a p. p)

  later_update : (id : ℕ) (f : Session → Session) → Ensures Later (update id f) (λ u. Later)
  unfolding update later_at Later
  later_update id f = >>=-Ensures (later_at id) λ p. record {
    ensures = λ s a t p e.
        let same : s.pam ≡ t.pam = ground arith in subst (λ x. Grown start x.calls) same p;
  }

  authenticate_pam_accepts :
      (id : ℕ) (p : Session) (login passwd : Str)
      → Ensures Later (authenticate_pam lib strdup id p login passwd) (AcceptedIf true)
  unfolding authenticate_pam AcceptedIf Later with_pam-Ensures refuse
  authenticate_pam_accepts id p login passwd =
      let tty_name = some (truncate 16 (codes "tty" ++ decimal p.vt)) in
      >>=-Ensures
        (with_pam-Ensures (entrance_pam_start lib id (some (codes "entrance")) tty_name login)
          (λ a s. Grown start s.calls)
          (start_grows lib strdup id start (some (codes "entrance")) tty_name login))
        λ started.
          >>=-Ensures
            (with_pam-Ensures (entrance_pam_passwd_set strdup id passwd)
              (λ a s. Grown start s.calls) (passwd_set_grows lib strdup id start passwd))
            λ failed.
              if-Ensures failed (λ e. refuse)
                λ e.
                  >>=-Ensures
                    (with_pam-Ensures (entrance_pam_authenticate lib id)
                      (λ b s. b ≡ false → AcceptedSince lib start s.calls)
                      (authenticate-Ensures id))
                    λ no_pam. ret-Ensures (not no_pam) (λ s a e. a (ground arith))

  -- A granted authentication of a seat was accepted by PAM.
  pub session_authenticate-Accepted :
      (id : ℕ) (login passwd : Str)
      → Ensures
          (λ s. Grown start s.pam.calls)
          (entrance_session_authenticate lib strdup id login passwd)
          (λ b t. b ≡ true → AcceptedSince lib start t.pam.calls)
  unfolding entrance_session_authenticate AcceptedIf Later later_at later_update
  session_authenticate-Accepted id login passwd =
      >>=-Ensures (later_update id _) λ u. >>=-Ensures (later_at id) λ p. by_login p.login p
    where
      by_login :
          (o : Option Str) (p : Session)
          → Ensures Later
              (elim o [
                | none ↦ λ s. some (false, s)
                | some l ↦ authenticate_pam lib strdup id p login passwd
              ])
              (AcceptedIf true)
      by_login none p = refuse
      by_login (some l) p = authenticate_pam_accepts id p login passwd
