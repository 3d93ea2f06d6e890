-- ===== src/Session/Run/Drop.antt =====
-- `_entrance_session_run` of src/daemon/entrance_session.c: the child's requests up to the user's shell.
use mathlib.Core.List.{append_assoc}
use mathlib.Core.Path.{subst₂}
use entrance.Image.{Passwd}
use entrance.Pam.{
  PamLib, PamState, entrance_pam_session_open, entrance_pam_env_list_get,
  entrance_pam_session_close, entrance_pam_end, entrance_pam_shutdown,
}
use entrance.Session.Defs.{Session}
use entrance.Session.Run.{
  Request, Host, Commands, Child, ChildEnd, exited, returned, execed, setsid, system, chdir, remove,
  initgroups, setgid, setuid, execle, attempt, pam, entrance_session_userid_set,
  entrance_session_cookie_add, launch, drop_and_launch, old_log, shell_line, start_line,
  session_child, set_env, session_env, child_session,
}
use entrance.Common.{
  ℕ, ◌≡◌, refl, ◌∙◌, ap, Bool, true, false, not, List, [], ◌∷◌, ◌++◌, Option, none, some, Str,
  arith, M, Bool-cases, sym, if◌then◌else◌, inl, inr, subst, Ensures, ret-Ensures, >>=-Ensures,
  if-Ensures,
}

abbrev pub Requests : Type 0
Requests = List (Request × Bool)

-- The three requests that drop the privileges, all granted, newest first.
abbrev pub dropped : Passwd → Requests → Requests
dropped pwd before =
    (setuid pwd.pw_uid, true)
    ∷ (setgid pwd.pw_gid, true)
    ∷ (initgroups pwd.pw_name pwd.pw_gid, true)
    ∷ before

userid_set_zero :
    (host : Host) (pwd : Passwd) (s t : Child)
    → entrance_session_userid_set host pwd s ≡ some (false, t)
    → t.requests ≡ dropped pwd s.requests
unfolding entrance_session_userid_set
userid_set_zero host pwd s t h = ground arith

pam-requests :
    {A : Type 0} (m : M PamState A) (s : Child) (a : A) (t : Child)
    → pam m s ≡ some (a, t)
    → t.requests ≡ s.requests
unfolding pam
pam-requests m s a t h = ground arith

-- `now` has come after `before`.
abbrev pub Later : Requests → Requests → Type 0
Later before now = (rs : Requests) × (now ≡ rs ++ before)

later_trans : (a b c : Requests) → Later a b → Later b c → Later a c
later_trans a b c (xs, p) (ys, q) = (ys ++ xs, q ∙ ap (◌++◌ ys) p ∙ sym (append_assoc ys xs a))

later_same : (a b : Requests) → b ≡ a → Later a b
later_same a b e = ([], e)

-- Requests since `before`.
abbrev Since : Requests → {A : Type 0} → A → Child → Type 0
Since before a s = Later before s.requests

abbrev From : Requests → Child → Type 0
From before s = Later before s.requests

attempt_ensures :
    (host : Host) (r : Request) (before : Requests)
    → Ensures (λ s. s.requests ≡ before) (attempt host r) (λ b t. t.requests ≡ (r, b) ∷ before)
unfolding attempt
attempt_ensures host r before = record { ensures = λ s b t p e. ground arith }

attempt-Since :
    (host : Host) (r : Request) (before : Requests)
    → Ensures (From before) (attempt host r) (Since before)
unfolding attempt
attempt-Since host r before = record { ensures = λ s b t (rs, p) e. ((r, b) ∷ rs, ground arith) }

pam-Since :
    {A : Type 0} (m : M PamState A) (before : Requests)
    → Ensures (From before) (pam m) (Since before)
pam-Since m before = record { ensures = λ s a t (rs, p) e. (rs, pam-requests m s a t e ∙ p) }

cookie_add-Since :
    (host : Host) (mcookie display : Str) (xauth : Option Str) (file : Str) (before : Requests)
    → Ensures
        (From before)
        (entrance_session_cookie_add host mcookie display xauth file)
        (Since before)
unfolding entrance_session_cookie_add
cookie_add-Since host mcookie display none file before = ret-Ensures true (λ s p. p)
cookie_add-Since host mcookie display (some x) file before =
    >>=-Ensures (attempt-Since host _ before) λ opened. ret-Ensures (not opened) (λ s p. p)

-- The state of a child that asked for the user's shell: what came before the request, granted.
abbrev pub Shell : Passwd → Requests → ChildEnd → Child → Type 0
Shell pwd before execed t =
    (line : Str) × (env : List Str) × (rs : Requests) × Later before rs
    × (t.requests ≡ (execle pwd.pw_shell line env, true) ∷ rs)
Shell pwd before _ t = Unit

module _ (host : Host) (cfg : Commands) (lib : PamLib) (id : ℕ) (pwd : Passwd) where
  exec_ensures :
      (line : Str) (env : List Str) (before : Requests)
      → Ensures
          (From before)
          (λ s. elim (attempt host (execle pwd.pw_shell line env) s) [
            | none ↦ none
            | some (ran, t) ↦ some (if ran then execed else returned, t)
          ])
          (Shell pwd before)
  unfolding attempt
  exec_ensures line env before = record {
    ensures = λ s b t (rs, p) e.
        let r = execle pwd.pw_shell line env in
        elim (Bool-cases (host.answer s.requests r)) [
          | inl y ↦
              let eb : execed ≡ b = ground arith in
              let et : record s { requests = (r, true) ∷ s.requests } ≡ t = ground arith in
              subst₂ (Shell pwd before) eb et (line, env, s.requests, (rs, p), refl)
          | inr n ↦ let eb : returned ≡ b = ground arith in subst (λ x. Shell pwd before x t) eb tt
        ];
  }

  launch_ensures :
      (p : Session) (cmd cookie : Str) (env : List Str) (before : Requests)
      → Ensures (From before) (launch host cfg lib id pwd p cmd cookie env) (Shell pwd before)
  unfolding launch
  launch_ensures p cmd cookie env before =
      >>=-Ensures (cookie_add-Since host _ _ cfg.xauth_path cookie before) λ failed.
        >>=-Ensures (attempt-Since host (chdir pwd.pw_dir) before) λ moved.
          if-Ensures (not moved) (λ e. ret-Ensures returned (λ s p. tt))
            λ e. >>=-Ensures (pam-Since (entrance_pam_session_close lib id) before) λ u.
              >>=-Ensures (pam-Since (entrance_pam_end lib id) before) λ r.
                >>=-Ensures (pam-Since (entrance_pam_shutdown id) before) λ v.
                  >>=-Ensures (attempt-Since host (remove (old_log host cfg lib id pwd)) before)
                    λ w. exec_ensures (shell_line host cfg lib id pwd cmd) env before

  drop_ensures :
      (p : Session) (cmd cookie : Str) (env : List Str)
      → Ensures
          (λ s. Unit {0})
          (drop_and_launch host cfg lib id pwd p cmd cookie env)
          (λ e t. (b : Requests) × Shell pwd (dropped pwd b) e t)
  unfolding drop_and_launch
  drop_ensures p cmd cookie env = >>=-Ensures {R = Denied} userid_ensures λ denied.
      if-Ensures denied (λ e. ret-Ensures returned (λ s q. ([], tt)))
        λ e. record {
          ensures = λ s b t q k.
              let (before, at_s) = q e in
              (
                before,
                (launch_ensures p cmd cookie env (dropped pwd before)).ensures s b t
                    (later_same _ s.requests at_s) k,
              );
        }
    where
      Denied : Bool → Child → Type 0
      Denied denied t = denied ≡ false → (b : Requests) × (t.requests ≡ dropped pwd b)

      userid_ensures : Ensures (λ s. Unit {0}) (entrance_session_userid_set host pwd) Denied
      userid_ensures = record {
        ensures = λ s denied t u k e. (s.requests, userid_set_zero host pwd s t (rw e at k));
      }

  any_ensures : {A : Type 0} (m : M Child A) → Ensures (λ s. Unit {0}) m (λ a t. Unit {0})
  any_ensures m = record { ensures = λ s a t p e. tt }

  session_child_ensures :
      (session : Option Str) (cmd cookie : Str) (is_wayland : Bool)
      → Ensures
          (λ s. Unit {0})
          (session_child host cfg lib id pwd session cmd cookie is_wayland)
          (λ e t. (b : Requests) × Shell pwd (dropped pwd b) e t)
  unfolding session_child
  session_child_ensures session cmd cookie is_wayland =
      >>=-Ensures (any_ensures (attempt host setsid)) λ leader.
        if-Ensures (not leader) (λ e. ret-Ensures exited (λ s q. ([], tt)))
          λ e. >>=-Ensures (any_ensures (pam (entrance_pam_session_open lib id))) λ refused.
            if-Ensures refused (λ e2. ret-Ensures exited (λ s q. ([], tt)))
              λ e2. >>=-Ensures (any_ensures (child_session id)) λ p.
                >>=-Ensures
                  (any_ensures (
                    pam (
                      set_env host cfg lib id pwd
                        (session_env host cfg id p pwd session cookie is_wayland))))
                  λ u. >>=-Ensures (any_ensures (pam (entrance_pam_env_list_get lib id))) λ env.
                    >>=-Ensures
                      (any_ensures (attempt host (system (start_line host cfg lib id pwd p))))
                      λ started. drop_ensures p cmd cookie env

  -- If the child process of a session ends in the user's shell, then before it asked for that
  -- shell the system had granted it the user's groups, then the group id, then the user id.
  pub session_child_drops :
      (session : Option Str) (cmd cookie : Str) (is_wayland : Bool) (s t : Child)
      → session_child host cfg lib id pwd session cmd cookie is_wayland s ≡ some (execed, t)
      → (before : Requests) × (later : Requests) × (line : Str) × (env : List Str) × (t.requests
          ≡ (execle pwd.pw_shell line env, true) ∷ later ++ dropped pwd before)
  session_child_drops session cmd cookie is_wayland s t h =
      let (b, shell) =
        (session_child_ensures session cmd cookie is_wayland).ensures s execed t tt h in
      let (line, env, rs, later, e) = shell in
      (b, later.0, line, env, e ∙ ap (◌∷◌ (execle pwd.pw_shell line env, true)) later.1)
