-- ===== src/Greeter/Sessions.antt =====
-- The choice of a session for a user of src/bin/entrance_login.c, and the request that follows it.
use mathlib.Core.List.{Memᴰ}
use entrance.Server.Login.{auth}
use entrance.Greeter.Defs.{Greeter, Xsession, user_of}
use entrance.Greeter.Login.{
  is_nil, session_name, last_session, session_named, session_or_first, with_session,
  login_xsession_update, entrance_login_session_set, login_xsession_guess, login_login_unfocused_cb,
  login_check_auth,
}
use entrance.Greeter.Connect.Requests.{
  Complete, requested, requested-sent, requested-wait, check-run,
}
use entrance.Common.{
  ◌≡◌, ◌≢◌, refl, sym, ◌∙◌, ap, subst, Bool, true, false, List, [], ◌∷◌, Option, none, some, Str,
  arith, if◌then◌else◌, str_eq, str_eq_iff, head?, All, ◌>>◌,
}

-- The session of the list with the wanted name, or its first when none has the name or none is wanted.
pub data Chosen (xs : List Xsession) (wanted : Option Str) : Option Xsession → Type 0 where
  listed :
      {x : Xsession} {n : Str}
      → wanted ≡ some n
      → x.name ≡ some n
      → Memᴰ x xs
      → Chosen xs wanted (some x)
  first :
      ((n : Str) → wanted ≡ some n → (x : Xsession) → Memᴰ x xs → x.name ≢ some n)
      → Chosen xs wanted (head? xs)

data Named (xs : List Xsession) (n : Str) : Option Xsession → Type 0 where
  hit : {x : Xsession} → x.name ≡ some n → Memᴰ x xs → Named xs n (some x)
  miss : ((x : Xsession) → Memᴰ x xs → x.name ≢ some n) → Named xs n none

no_session_named : (n : Str) (x : Xsession) → Memᴰ x [] → x.name ≢ some n
no_session_named n x m = elim m [ ]

none_named :
    (x : Xsession) (xs : List Xsession) (n : Str)
    → x.name ≢ some n
    → ((y : Xsession) → Memᴰ y xs → y.name ≢ some n)
    → (y : Xsession) → Memᴰ y (x ∷ xs)
    → y.name ≢ some n
none_named x xs n ne f y (Memᴰ.head e) h = ne (ap (λ z. z.name) (sym e) ∙ h)
none_named x xs n ne f y (Memᴰ.tail m) h = f y m h

later_Named :
    (x : Xsession) (xs : List Xsession) (n : Str) (o : Option Xsession)
    → x.name ≢ some n
    → Named xs n o
    → Named (x ∷ xs) n o
later_Named x xs n o ne (hit e m) = hit e (Memᴰ.tail m)
later_Named x xs n o ne (miss f) = miss (none_named x xs n ne f)

by_test :
    (x : Xsession) (xs : List Xsession) (n k : Str) (r : Option Xsession) (b : Bool)
    → str_eq k n ≡ b
    → x.name ≡ some k
    → Named xs n r
    → Named (x ∷ xs) n (if b then some x else r)
by_test x xs n k r true h e p = hit (e ∙ ap some ((str_eq_iff k n).0 h)) (Memᴰ.head refl)
by_test x xs n k r false h e p =
    later_Named x xs n r (λ w. let same : k ≡ n = cc in ground (arith, str_eq_iff k n)) p

session_named-Named : (xs : List Xsession) (n : Str) → Named xs n (session_named xs n)
unfolding session_named
session_named-Named [] n = miss (no_session_named n)
session_named-Named (x ∷ xs) n = by_name x.name refl (session_named xs n) (session_named-Named xs n)
  where
    by_name :
        (o : Option Str)
        → x.name ≡ o
        → (r : Option Xsession) → Named xs n r
        → Named (x ∷ xs) n (elim o [ none ↦ r | some k ↦ if str_eq k n then some x else r ])
    by_name none e r p = later_Named x xs n r (λ h. cc) p
    by_name (some k) e r p = by_test x xs n k r (str_eq k n) refl e p

session_or_first-Chosen :
    (xs : List Xsession) (wanted : Option Str) → Chosen xs wanted (session_or_first xs wanted)
unfolding session_or_first
session_or_first-Chosen xs none = first (λ n h. cc)
session_or_first-Chosen xs (some n) = by_named (session_named xs n) (session_named-Named xs n)
  where
    by_named :
        (o : Option Xsession)
        → Named xs n o
        → Chosen xs (some n) (elim o [ none ↦ head? xs | some x ↦ some x ])
    by_named _ (hit e m) = listed refl e m
    by_named _ (miss f) = first (λ k h x m e. f x m (e ∙ sym h))

-- What the guess leaves: a chosen session, which the button shows, in the same form.
pub record Guessed (user : Str) (s t : Greeter) : Type 0 where
  pub chosen : Chosen s.gui.xsessions (last_session (user_of s.gui.users user)) t.session
  pub shown : (x : Xsession) → t.session ≡ some x → t.button.label ≡ x.name
  pub login_text : t.login_text ≡ s.login_text
  pub password_text : t.password_text ≡ s.password_text
  pub gui : t.gui ≡ s.gui
  pub sent : t.sent ≡ s.sent
  pub client_id : t.client_id ≡ s.client_id

guessed_at : Option Xsession → Greeter → Greeter
guessed_at o s = with_session o (record s { session = o })

guessed :
    (user : Str) (s : Greeter) (o : Option Xsession)
    → Chosen s.gui.xsessions (last_session (user_of s.gui.users user)) o
    → Guessed user s (guessed_at o s)
unfolding guessed_at
guessed user s none c = record {
  chosen = c;
  shown = λ x e. cc;
  login_text = refl;
  password_text = refl;
  gui = refl;
  sent = refl;
  client_id = refl;
}
guessed user s (some y) c = record {
  chosen = c;
  shown = λ x e. let same : y ≡ x = cc in ap (λ z. z.name) same;
  login_text = refl;
  password_text = refl;
  gui = refl;
  sent = refl;
  client_id = refl;
}

-- The choice of the session for a user name ends; it takes the session that the user's entry names when
-- that is in the list, and the list's first session otherwise, shows it on the button, and changes neither
-- the texts of the form nor what was sent.
pub login_xsession_guess-Guessed :
    (user : Str) (s : Greeter)
    → (t : Greeter) × ((login_xsession_guess user s ≡ some (tt, t)) × Guessed user s t)
unfolding login_xsession_guess entrance_login_session_set login_xsession_update guessed_at
login_xsession_guess-Guessed user s =
    let o = session_or_first s.gui.xsessions (last_session (user_of s.gui.users user)) in
    (guessed_at o s, (refl, guessed user s o (session_or_first-Chosen s.gui.xsessions _)))

-- Every session of the list has a name that is not empty.
abbrev pub AllNamed : List Xsession → Type 0
AllNamed xs = All (λ (x : Xsession). (n : Str) × ((x.name ≡ some n) × (is_nil n ≡ false))) xs

named_member :
    (xs : List Xsession) (x : Xsession)
    → AllNamed xs
    → Memᴰ x xs
    → (n : Str) × ((x.name ≡ some n) × (is_nil n ≡ false))
named_member [] x h m = elim m [ ]
named_member (y ∷ xs) x (h, hs) (Memᴰ.head e) =
    subst (λ (z : Xsession). (n : Str) × ((z.name ≡ some n) × (is_nil n ≡ false))) (sym e) h
named_member (y ∷ xs) x (h, hs) (Memᴰ.tail m) = named_member xs x hs m

-- The choice among a list that is not empty is an entry of the list.
chosen_member :
    (y : Xsession) (ys : List Xsession) (wanted : Option Str) (o : Option Xsession)
    → Chosen (y ∷ ys) wanted o
    → (x : Xsession) × ((o ≡ some x) × Memᴰ x (y ∷ ys))
chosen_member y ys wanted _ (listed {x} w e m) = (x, (refl, m))
chosen_member y ys wanted _ (first f) = (y, (refl, Memᴰ.head refl))

-- What the form has sent when it is submitted.
pub record Submitted (s t : Greeter) : Type 0 where
  pub x : Xsession
  pub chosen : Chosen s.gui.xsessions (last_session (user_of s.gui.users s.login_text)) (some x)
  pub in_list : Memᴰ x s.gui.xsessions
  pub name : Str
  pub named : x.name ≡ some name
  pub sent : t.sent ≡ auth s.client_id s.login_text s.password_text (some name) ∷ s.sent
  pub waits : t.wait ≡ true

session_name-named :
    (o : Option Xsession) (x : Xsession) (n : Str)
    → o ≡ some x
    → x.name ≡ some n
    → is_nil n ≡ false
    → session_name o ≡ some n
unfolding session_name
session_name-named none x n e named given = cc
session_name-named (some z) x n e named given =
    let same : z ≡ x = cc in
    let z_named : z.name ≡ some n = ap (λ y. y.name) same ∙ named in ground arith

submitted :
    (s t : Greeter) (x : Xsession)
    → AllNamed s.gui.xsessions
    → is_nil s.login_text ≡ false
    → is_nil s.password_text ≡ false
    → Guessed s.login_text (record s { write_timer = false }) t
    → t.session ≡ some x
    → Memᴰ x s.gui.xsessions
    → (n : Str) × (Complete t n × Submitted s (requested n t))
submitted s t x named login password g e m =
    let (n, (at, given)) = named_member s.gui.xsessions x named m in
    let no_password : is_nil t.password_text ≡ false = ap is_nil g.password_text ∙ password in
    (
      n,
      (
        record {
          login = ap is_nil g.login_text ∙ login;
          password = ground arith;
          chosen = session_name-named t.session x n e at given;
        },
        record {
          x = x;
          chosen =
              subst
                (λ o. Chosen s.gui.xsessions (last_session (user_of s.gui.users s.login_text)) o) e
                g.chosen;
          in_list = m;
          name = n;
          named = at;
          sent = requested-sent n t ∙ by_form n g.client_id g.login_text g.password_text g.sent;
          waits = requested-wait n t;
        },
      ),
    )
  where
    by_form :
        (n : Str)
        → t.client_id ≡ s.client_id
        → t.login_text ≡ s.login_text
        → t.password_text ≡ s.password_text
        → t.sent ≡ s.sent
        → auth t.client_id t.login_text t.password_text (some n) ∷ t.sent
          ≡ auth s.client_id s.login_text s.password_text (some n) ∷ s.sent
    by_form n a b c d = cc

run_both :
    (s t v : Greeter)
    → login_xsession_guess s.login_text (record s { write_timer = false }) ≡ some (tt, t)
    → login_check_auth t ≡ some (tt, v)
    → (login_login_unfocused_cb >> login_check_auth) s ≡ some (tt, v)
unfolding login_login_unfocused_cb
run_both s t v guess checked = ground arith

-- With a session list that is not empty and names that are not, a form with a user name and a password is
-- submitted: when the focus leaves the user name's entry and the form is checked, the greeter sends one
-- authentication, with the form's texts and the name of a session of the list, which is the one that the
-- user's entry names when that is in the list, and it waits for the answer.
pub unfocused_check-Submitted :
    (s : Greeter) (y : Xsession) (ys : List Xsession)
    → s.gui.xsessions ≡ y ∷ ys
    → AllNamed s.gui.xsessions
    → is_nil s.login_text ≡ false
    → is_nil s.password_text ≡ false
    → (t : Greeter) × (((login_login_unfocused_cb >> login_check_auth) s ≡ some (tt, t))
        × Submitted s t)
unfocused_check-Submitted s y ys list named login password =
    let (t, (run, g)) =
      login_xsession_guess-Guessed s.login_text (record s { write_timer = false }) in
    let wanted : Option Str = last_session (user_of s.gui.users s.login_text) in
    let (x, (e, m)) =
      chosen_member y ys wanted t.session (subst (λ l. Chosen l wanted t.session) list g.chosen) in
    let (n, (c, sub)) = submitted s t x named login password g e (subst (Memᴰ x) (sym list) m) in
    (requested n t, (run_both s t (requested n t) run (check-run t n c), sub))
