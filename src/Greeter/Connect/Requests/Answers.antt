-- ===== src/Greeter/Connect/Requests/Answers.antt =====
-- The daemon's answer to an authentication, as `connect_auth` of src/bin/entrance_connect.c passes it to
-- the callback of src/bin/entrance_login.c.
use entrance.Greeter.Defs.{Greeter, auth_valid, auth_error, alert_error, emit}
use entrance.Greeter.Login.{is_nil, remove_handle, auth_cb_del, login_refused, login_auth_cb}
use entrance.Greeter.Connect.{auth_callbacks, connect_auth}
use entrance.Greeter.Connect.Requests.{Registered, handles}
use entrance.Common.{
  ℕ, ◌≡◌, refl, sym, ◌∙◌, ap, subst, Bool, true, false, [], ◌∷◌, Option, none, some, Str, codes,
  arith, is_some, if◌then◌else◌, ◌==◌,
}

-- The form after an answer, described without the list of callbacks.
abbrev closed : Greeter → Greeter
closed s = record s { exited = true }

abbrev unregistered : Greeter → Greeter
unregistered s = record s { wait = false; auth = none; auth_list = [] }

abbrev accepted : Greeter → Greeter
accepted s = record s { signals = auth_valid ∷ s.signals }

abbrev denied : Str → Greeter → Greeter
denied text s = record s {
  signals = auth_error (if is_nil text then codes "Login failed" else text) ∷ s.signals;
  error = true;
  password_text = [];
}

-- The answer's effect, where none is the use of a NULL text.
unfoldable pub answered : Bool → Option Str → Greeter → Option Greeter
answered true msgs s = some (closed (if s.wait then accepted (unregistered s) else s))
answered false none s = if s.wait then none else some s
answered false (some text) s = some (if s.wait then denied text (unregistered s) else s)

abbrev pub result : Option Greeter → Option (Unit {0} × Greeter)
result none = none
result (some s) = some (tt, s)

self_eq : (h : ℕ) → (h == h) ≡ true
self_eq h = ground arith

-- The form of `s` when it waits with the handle, and when it does not wait.
abbrev waiting_at : ℕ → Greeter → Greeter
waiting_at h s = record s { wait = true; auth = some h; auth_list = h ∷ [] }

abbrev idle_at : Greeter → Greeter
idle_at s = record s { wait = false; auth = none; auth_list = [] }

waiting-answered :
    (granted : Bool) (msgs : Option Str) (h : ℕ) (s : Greeter)
    → connect_auth granted msgs (waiting_at h s) ≡ result (answered granted msgs (waiting_at h s))
unfolding connect_auth auth_callbacks login_auth_cb auth_cb_del remove_handle login_refused
    alert_error emit answered
waiting-answered true msgs h s = rw (self_eq h)
waiting-answered false none h s = refl
waiting-answered false (some text) h s = rw (self_eq h)

idle-answered :
    (granted : Bool) (msgs : Option Str) (s : Greeter)
    → connect_auth granted msgs (idle_at s) ≡ result (answered granted msgs (idle_at s))
unfolding connect_auth auth_callbacks answered
idle-answered true msgs s = refl
idle-answered false none s = refl
idle-answered false (some text) s = refl

-- With the form registered exactly while it waits, an answer of the daemon has the effect of `answered`:
-- a form that waits for none keeps its state, and one that waits is ready for another request, with the
-- refusal's text shown, a default for an empty one, and the password's entry cleared; a grant ends the greeter.
pub connect_auth-answered :
    (granted : Bool) (msgs : Option Str) (s : Greeter)
    → Registered s
    → connect_auth granted msgs s ≡ result (answered granted msgs s)
connect_auth-answered granted msgs s r = by_auth s.auth refl
  where
    by_auth :
        (o : Option ℕ) → s.auth ≡ o → connect_auth granted msgs s ≡ result (answered granted msgs s)
    by_auth none e =
        let w : s.wait ≡ false = r.waits ∙ ap is_some e in
        let l : s.auth_list ≡ [] = r.callbacks ∙ ap handles e in
        let same : idle_at s ≡ s = cc in
        subst (λ x. connect_auth granted msgs x ≡ result (answered granted msgs x)) same
          (idle-answered granted msgs s)
    by_auth (some h) e =
        let w : s.wait ≡ true = r.waits ∙ ap is_some e in
        let l : s.auth_list ≡ h ∷ [] = r.callbacks ∙ ap handles e in
        let same : waiting_at h s ≡ s = cc in
        subst (λ x. connect_auth granted msgs x ≡ result (answered granted msgs x)) same
          (waiting-answered granted msgs h s)

pub answered-Registered :
    (granted : Bool) (msgs : Option Str) (s t : Greeter)
    → Registered s
    → answered granted msgs s ≡ some t
    → Registered t
unfolding answered
answered-Registered granted msgs s t r e = by_wait s.wait refl granted msgs e
  where
    idle : (u : Greeter) → u.wait ≡ false → u.auth ≡ none → u.auth_list ≡ [] → Registered u
    idle u w a l = record { callbacks = l ∙ sym (ap handles a); waits = w ∙ sym (ap is_some a) }

    by_wait :
        (b : Bool)
        → s.wait ≡ b
        → (g : Bool) (m : Option Str) → answered g m s ≡ some t
        → Registered t
    by_wait true w true m f = idle t (cc) (cc) (cc)
    by_wait true w false none f = ground arith
    by_wait true w false (some text) f = idle t (cc) (cc) (cc)
    by_wait false w true m f =
        let same : record s { exited = true } ≡ t = ground arith in
        subst Registered same (record { callbacks = r.callbacks; waits = r.waits })
    by_wait false w false none f = subst Registered (ground arith) r
    by_wait false w false (some text) f = subst Registered (ground arith) r

pub answered-sent :
    (granted : Bool) (msgs : Option Str) (s t : Greeter)
    → answered granted msgs s ≡ some t
    → t.sent ≡ s.sent
unfolding answered
answered-sent true msgs s t e = ground arith
answered-sent false none s t e = ground arith
answered-sent false (some text) s t e = ground arith

pub answered-client_id :
    (granted : Bool) (msgs : Option Str) (s t : Greeter)
    → answered granted msgs s ≡ some t
    → t.client_id ≡ s.client_id
unfolding answered
answered-client_id true msgs s t e = ground arith
answered-client_id false none s t e = ground arith
answered-client_id false (some text) s t e = ground arith

pub connect_auth-answer :
    (granted : Bool) (msgs : Option Str) (s t : Greeter)
    → Registered s
    → connect_auth granted msgs s ≡ some (tt, t)
    → answered granted msgs s ≡ some t
connect_auth-answer granted msgs s t r e = by_answer (answered granted msgs s) refl
  where
    by_answer : (o : Option Greeter) → answered granted msgs s ≡ o → o ≡ some t
    by_answer none f = ground (arith, connect_auth-answered granted msgs s r)
    by_answer (some u) f = ground (arith, connect_auth-answered granted msgs s r)
