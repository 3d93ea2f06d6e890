-- ===== src/Greeter/Connect/Requests.antt =====
-- What the greeter asks the daemon for: the request of the login form of src/bin/entrance_login.c and
-- its registration for the daemon's answer.
pub mod Answers
pub mod Steps
pub mod Served
use entrance.Server.Login.{ClientEvent, auth}
use entrance.Greeter.Defs.{Greeter, auth_checking, alert_error, emit}
use entrance.Greeter.Login.{
  is_nil, auth_send, register, request_auth, login_check_auth, session_name, no_session,
}
use entrance.Greeter.Quiet.{Quiet, alert_error-Quiet}
use entrance.Common.{
  ℕ, suc, ◌≡◌, refl, sym, ◌∙◌, ap, ◌⊎◌, inl, inr, Bool, true, false, ◌&&◌, List, [], ◌∷◌, ◌++◌,
  Option, none, some, Str, codes, arith, is_some, Bool-cases, M, ◌>>=◌, ◌>>◌, Option-cases,
}

abbrev pub handles : Option ℕ → List ℕ
handles none = []
handles (some h) = h ∷ []

-- The form is registered for an answer exactly while it waits for one.
pub record Registered (s : Greeter) : Type 0 where
  pub callbacks : s.auth_list ≡ handles s.auth
  pub waits : s.wait ≡ is_some s.auth

-- The state after the registration, and after the request.
registered : Option ℕ → Greeter → Greeter
registered (some h) s = s
registered none s = record s {
  auth_list = s.auth_list ++ s.next_auth ∷ [];
  next_auth = suc s.next_auth;
  auth = some s.next_auth;
}

request_from : Greeter → Str → Greeter → Greeter
request_from s name u = record u {
  sent = auth u.client_id s.login_text s.password_text (some name) ∷ u.sent;
  signals = auth_checking ∷ u.signals;
}

pub requested : Str → Greeter → Greeter
requested name s = request_from s name (registered s.auth (record s { wait = true }))

request_auth-run : (name : Str) (s : Greeter) → request_auth name s ≡ some (tt, requested name s)
unfolding request_auth requested auth_send emit register registered request_from
request_auth-run name s = by_auth s.auth (record s { wait = true })
  where
    by_auth :
        (o : Option ℕ) (u : Greeter)
        → ◌≡◌ {A = Option (Unit {0} × Greeter)}
            (elim (register o u) [
              | none ↦ none
              | some (a, t) ↦ (auth_send s.login_text s.password_text name >> emit auth_checking) t
            ])
            (some (tt, request_from s name (registered o u)))
    by_auth none u = refl
    by_auth (some h) u = refl

pub requested-sent :
    (name : Str) (s : Greeter)
    → (requested name s).sent ≡ auth s.client_id s.login_text s.password_text (some name) ∷ s.sent
unfolding requested request_from registered
requested-sent name s = by_auth s.auth (record s { wait = true })
  where
    by_auth :
        (o : Option ℕ) (u : Greeter)
        → auth (registered o u).client_id s.login_text s.password_text (some name)
            ∷ (registered o u).sent
          ≡ auth u.client_id s.login_text s.password_text (some name) ∷ u.sent
    by_auth none u = refl
    by_auth (some h) u = refl

pub requested-wait : (name : Str) (s : Greeter) → (requested name s).wait ≡ true
unfolding requested request_from registered
requested-wait name s = by_auth s.auth
  where
    by_auth : (o : Option ℕ) → (registered o (record s { wait = true })).wait ≡ true
    by_auth none = refl
    by_auth (some h) = refl

pub requested-client_id : (name : Str) (s : Greeter) → (requested name s).client_id ≡ s.client_id
unfolding requested request_from registered
requested-client_id name s = by_auth s.auth
  where
    by_auth : (o : Option ℕ) → (registered o (record s { wait = true })).client_id ≡ s.client_id
    by_auth none = refl
    by_auth (some h) = refl

pub requested-Registered : (name : Str) (s : Greeter) → Registered s → Registered (requested name s)
unfolding requested request_from registered
requested-Registered name s r = by_auth s.auth refl
  where
    by_auth :
        (o : Option ℕ)
        → s.auth ≡ o
        → Registered (request_from s name (registered o (record s { wait = true })))
    by_auth none e = record {
      callbacks = ap (λ l. l ++ s.next_auth ∷ []) (r.callbacks ∙ ap handles e);
      waits = refl;
    }
    by_auth (some h) e = record { callbacks = r.callbacks; waits = sym (ap is_some e) }

-- What the check of the form does: it asks nothing, or its request is complete.
pub record Complete (s : Greeter) (name : Str) : Type 0 where
  pub login : is_nil s.login_text ≡ false
  pub password : (s.gui.req_passwd && is_nil s.password_text) ≡ false
  pub chosen : session_name s.session ≡ some name

pub check-cases :
    (s t : Greeter)
    → login_check_auth s ≡ some (tt, t)
    → (Quiet s t × ((name : Str) → ¬ Complete s name))
      ⊎ ((name : Str) × (Complete s name × (t ≡ requested name s)))
unfolding login_check_auth no_session
check-cases s t e = elim (Bool-cases (is_nil s.login_text)) [
  | inl y ↦ inl (
    (alert_error-Quiet (codes "Please enter your user name")).keeps s tt t (ground arith),
    λ name c. let login = c.login in cc,
  )
  | inr login ↦ elim (Bool-cases (s.gui.req_passwd && is_nil s.password_text)) [
    | inl y ↦ inl (
      (alert_error-Quiet (codes "Please enter your password")).keeps s tt t (ground arith),
      λ name c. let password = c.password in cc,
    )
    | inr password ↦ elim (Option-cases (session_name s.session)) [
      | inl y ↦ inl (
        (alert_error-Quiet (codes "Please choose a login session")).keeps s tt t (ground arith),
        λ name c. let chosen = c.chosen in cc,
      )
      | inr (name, chosen) ↦ inr (
        name,
        (
          record { login = login; password = password; chosen = chosen },
          let run : request_auth name s ≡ some (tt, t) = ground arith in
              ground (arith, request_auth-run name s),
        ),
      )
    ]
  ]
]

-- A complete form is always sent.
pub check-run :
    (s : Greeter) (name : Str) → Complete s name → login_check_auth s ≡ some (tt, requested name s)
unfolding login_check_auth
check-run s name c =
    let login = c.login in
    let password = c.password in let chosen = c.chosen in ground (arith, request_auth-run name s)
