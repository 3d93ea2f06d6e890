-- ===== src/Pam/Frame.antt =====
-- The operations of src/daemon/entrance_pam.c on one seat: what becomes of the other seats, and of the
-- record of the library's calls.
use entrance.Common.{
  subst, if◌then◌else◌, Str, not, ◌||◌, ltb, length, truncate, codes, ℕ, Bool, true, false, ◌≡◌,
  refl, sym, ◌∙◌, ap, List, [], ◌∷◌, ◌++◌, Option, none, some, arith, Slot, get_elem?, slot_set,
  SameElsewhere, get_elem?-set_ne, Keeps, ret-Keeps, modify-Keeps, deref-Keeps, >>=-Keeps, if-Keeps,
  slot_get, M, Ensures,
}
use mathlib.Core.List.{append_assoc}
use entrance.Pam.{
  MessageStyle, PamMessage, ItemType, conv_message, prompt_echo_off, text_info, br,
  entrance_pam_conv, entrance_pam_passwd_set, call_conv, responses, pam_end, pam_close_session,
  pam_setcred, delete_cred, establish_cred, pam_open_session, is_success, entrance_pam_result_check,
  check_account, pam_acct_mgmt, entrance_pam_authenticate, pam_authenticate, entrance_pam_item_set,
  pam_set_item, entrance_pam_item_get, pam_get_item, entrance_pam_env_set, pam_putenv,
  entrance_pam_env_list_get, pam_getenvlist, end_previous, start_on, pam_start, fresh_pam, ruser,
  entrance_pam_start, silently, run_op, PamOp, op_start, op_authenticate, op_session_open,
  op_session_close, op_end, op_env_list_get, op_item_set, op_item_get, op_env_set, op_passwd_set,
  PamState, PamLib, PamCall, Pam, PamResult, update, call, entrance_pam_end, end_quietly,
  entrance_pam_session_close, entrance_pam_session_open, pam_at, set_result,
}

pub record Elsewhere (id : ℕ) (s t : PamState) : Type 0 where
  pub same : SameElsewhere id s.pams t.pams
  pub asked : (cs : List PamCall) × (t.calls ≡ cs ++ s.calls)

Elsewhere-refl : (id : ℕ) (s : PamState) → Elsewhere id s s
Elsewhere-refl id s = record { same = λ j ne. refl; asked = ([], refl) }

Elsewhere-trans :
    (id : ℕ) (s t u : PamState) → Elsewhere id s t → Elsewhere id t u → Elsewhere id s u
Elsewhere-trans id s t u a b = record {
  same = λ j ne. b.same j ne ∙ a.same j ne;
  asked = (
    b.asked.0 ++ a.asked.0,
    b.asked.1 ∙ ap (◌++◌ b.asked.0) a.asked.1 ∙ sym (append_assoc b.asked.0 a.asked.0 s.calls),
  );
}

module _ (id : ℕ) where
  abbrev Framed : {A : Type 0} → M PamState A → Type 0
  Framed m = Keeps (Elsewhere id) m

  ret-Framed : {A : Type 0} (a : A) → Framed (λ s. some (a, s))
  ret-Framed a = ret-Keeps (Elsewhere id) (Elsewhere-refl id) (Elsewhere-trans id) a

  bind-Framed :
      {A B : Type 0} {m : M PamState A} {f : A → M PamState B}
      → Framed m
      → ((a : A) → Framed (f a))
      → Framed (λ s. elim (m s) [ none ↦ none | some (a, s') ↦ f a s' ])
  bind-Framed km kf = >>=-Keeps (Elsewhere id) (Elsewhere-refl id) (Elsewhere-trans id) km kf

  at-Framed : Framed (pam_at id)
  at-Framed =
      deref-Keeps (Elsewhere id) (Elsewhere-refl id) (Elsewhere-trans id) (λ s. slot_get s.pams id)

  update-Framed : (f : Pam → Pam) → Framed (update id f)
  unfolding update slot_set
  update-Framed f = bind-Framed at-Framed (λ p.
      modify-Keeps (Elsewhere id) (Elsewhere-refl id) (Elsewhere-trans id)
        (λ s. record s { pams = slot_set s.pams id (f p) })
        (λ s. record {
          same = λ j ne. get_elem?-set_ne s.pams id j (Slot.live (f p)) ne;
          asked = ([], refl);
        }))

  get-Framed : Framed (λ s. some (s, s))
  get-Framed = record { keeps = λ s a s' e. subst (Elsewhere id s) (cc) (Elsewhere-refl id s) }

  if_Framed :
      {A : Type 0} (c : Bool) {m n : M PamState A}
      → Framed m
      → Framed n
      → Framed (if c then m else n)
  if_Framed c km kn = if-Keeps (Elsewhere id) (Elsewhere-refl id) (Elsewhere-trans id) c km kn

  modify-Framed :
      (f : PamState → PamState)
      → ((s : PamState) → Elsewhere id s (f s))
      → Framed (λ s. some (tt, f s))
  modify-Framed f h = modify-Keeps (Elsewhere id) (Elsewhere-refl id) (Elsewhere-trans id) f h

  conv_message-Framed : (style : MessageStyle) (text : Str) → Framed (conv_message id style text)
  unfolding conv_message
  conv_message-Framed prompt_echo_off text = bind-Framed at-Framed (λ p. ret-Framed p.passwd)
  conv_message-Framed text_info text = bind-Framed at-Framed λ p.
      bind-Framed
        (update-Framed
          (λ q. record q { msgs = if ltb 1 (length q.msgs) then q.msgs ++ br else q.msgs }))
        λ u.
          bind-Framed (update-Framed (λ q. record q { msgs = q.msgs ++ text })) λ v. ret-Framed none
  conv_message-Framed _ text = ret-Framed none

  conv-Framed : (ms : List PamMessage) → Framed (entrance_pam_conv id ms)
  unfolding entrance_pam_conv
  conv-Framed [] = ret-Framed []
  conv-Framed (m ∷ ms) =
      bind-Framed (conv_message-Framed m.msg_style m.msg)
        λ r. bind-Framed (conv-Framed ms) λ rs. ret-Framed (r ∷ rs)

  passwd-Framed :
      (strdup : Str → Option Str) (w : Str) → Framed (entrance_pam_passwd_set strdup id w)
  unfolding entrance_pam_passwd_set
  passwd-Framed strdup w =
      bind-Framed (update-Framed (λ p. record p { passwd = strdup w }))
        λ u. bind-Framed at-Framed λ p. ret-Framed (elim p.passwd [ none ↦ true | some d ↦ false ])

  module _ (lib : PamLib) where
    call-Framed : (c : PamCall) → Framed (call lib c)
    unfolding call
    call-Framed c = record {
      keeps = λ s a s' e. record {
        same = λ j ne. ap (λ t. get_elem? t j) (ground arith);
        asked = (c ∷ [], ground arith);
      };
    }

    call_conv-Framed : (c : PamCall) → Framed (call_conv lib id c)
    unfolding call_conv
    call_conv-Framed c = bind-Framed get-Framed λ s.
        bind-Framed (conv-Framed (lib.messages s.calls c)) λ rs.
          bind-Framed
            (modify-Framed (λ t. record t { calls = responses rs ∷ t.calls })
              (λ t. record { same = λ j ne. refl; asked = (responses rs ∷ [], refl) }))
            λ u. call-Framed c

    set-Framed : (r : PamResult) → Framed (set_result lib id r)
    set-Framed r = update-Framed (λ p. record p { last_result = r })

    end-Framed : Framed (entrance_pam_end lib id)
    unfolding entrance_pam_end
    end-Framed = bind-Framed at-Framed λ p.
        bind-Framed (call-Framed (pam_end p.handle p.last_result)) λ r.
          bind-Framed (update-Framed (λ q. record q { handle = none; msgs = [] })) λ u. ret-Framed r

    quiet-Framed : Framed (end_quietly lib id)
    unfolding end_quietly
    quiet-Framed = bind-Framed end-Framed (λ r. ret-Framed tt)

    close-Framed : Framed (entrance_pam_session_close lib id)
    unfolding entrance_pam_session_close
    close-Framed = bind-Framed at-Framed λ p.
        bind-Framed (call-Framed (pam_close_session p.handle)) λ r. bind-Framed (set-Framed r) λ u.
          if_Framed (p.opened || not (is_success r))
            (bind-Framed (call-Framed (pam_setcred p.handle delete_cred)) λ d.
              bind-Framed (set-Framed d) λ v. if_Framed (is_success d) (ret-Framed tt) quiet-Framed)
            (ret-Framed tt)

    open-Framed : Framed (entrance_pam_session_open lib id)
    unfolding entrance_pam_session_open
    open-Framed = bind-Framed at-Framed λ p.
        bind-Framed (call-Framed (pam_setcred p.handle establish_cred)) λ r.
          bind-Framed (set-Framed r) λ u.
            if_Framed (entrance_pam_result_check r) (ret-Framed true) (
              bind-Framed (call-Framed (pam_open_session p.handle)) λ o.
                bind-Framed (set-Framed o) λ v.
                  bind-Framed
                    (if_Framed (is_success o) (ret-Framed tt) (
                      bind-Framed (call-Framed (pam_setcred p.handle delete_cred))
                        λ d. quiet-Framed))
                    λ w.
                      bind-Framed (update-Framed (λ q. record q { opened = true }))
                        λ x. ret-Framed false)

    account-Framed : (h : Option ℕ) → Framed (check_account lib id h)
    unfolding check_account
    account-Framed h =
        bind-Framed (call_conv-Framed (pam_acct_mgmt h))
          λ a. bind-Framed (set-Framed a) λ u. ret-Framed (entrance_pam_result_check a)

    authenticate-Framed : Framed (entrance_pam_authenticate lib id)
    unfolding entrance_pam_authenticate
    authenticate-Framed = bind-Framed at-Framed λ p.
        bind-Framed (call_conv-Framed (pam_authenticate p.handle)) λ r.
          bind-Framed (set-Framed r)
            λ u. if_Framed (entrance_pam_result_check r) (ret-Framed true) (account-Framed p.handle)

    item_set-Framed : (type : ItemType) (v : Str) → Framed (entrance_pam_item_set lib id type v)
    unfolding entrance_pam_item_set
    item_set-Framed type v = bind-Framed at-Framed λ p.
        bind-Framed (call-Framed (pam_set_item p.handle type v))
          λ r. bind-Framed (set-Framed r) λ u. ret-Framed (not (is_success r))

    item_get-Framed : (type : ItemType) → Framed (entrance_pam_item_get lib id type)
    unfolding entrance_pam_item_get
    item_get-Framed type = bind-Framed at-Framed λ p. bind-Framed get-Framed λ s.
        bind-Framed (call-Framed (pam_get_item p.handle type)) λ r. bind-Framed (set-Framed r) λ u.
          if_Framed (is_success r) (ret-Framed (lib.item s.calls (pam_get_item p.handle type)))
            (bind-Framed quiet-Framed λ v. ret-Framed none)

    env_set-Framed : (env value : Option Str) → Framed (entrance_pam_env_set lib id env value)
    unfolding entrance_pam_env_set
    env_set-Framed none value = ret-Framed true
    env_set-Framed (some env) none = ret-Framed true
    env_set-Framed (some env) (some value) = bind-Framed at-Framed λ p.
        bind-Framed (call-Framed (pam_putenv p.handle (truncate 1024 (env ++ codes "=" ++ value))))
          λ r. bind-Framed (set-Framed r) λ u.
            if_Framed (is_success r) (ret-Framed false)
              (bind-Framed quiet-Framed λ v. ret-Framed true)

    env_list-Framed : Framed (entrance_pam_env_list_get lib id)
    unfolding entrance_pam_env_list_get
    env_list-Framed = bind-Framed at-Framed λ p. bind-Framed get-Framed λ s.
        bind-Framed (call-Framed (pam_getenvlist p.handle))
          λ r. ret-Framed (lib.environment s.calls (pam_getenvlist p.handle))

    previous-Framed : (o : Option (Slot Pam)) → Framed (end_previous lib id o)
    unfolding end_previous
    previous-Framed none = record { keeps = λ s a s' e. cc }
    previous-Framed (some Slot.null) = ret-Framed tt
    previous-Framed (some Slot.freed) = record { keeps = λ s a s' e. cc }
    previous-Framed (some (Slot.live p)) = handle_framed p.handle
      where
        handle_framed :
            (h : Option ℕ)
            → Framed (λ s. elim h [ none ↦ some (tt, s) | some k ↦ end_quietly lib id s ])
        handle_framed none = ret-Framed tt
        handle_framed (some k) = quiet-Framed

    start_on-Framed :
        (name : Option Str) (tty_name login : Str) → Framed (start_on lib id name tty_name login)
    unfolding start_on slot_set
    start_on-Framed name tty_name login =
        let c = pam_start (elim name [ none ↦ some (codes "entrance") | some n ↦ some n ]) login in
        bind-Framed get-Framed λ s. bind-Framed (previous-Framed (get_elem? s.pams id)) λ u.
          bind-Framed
            (modify-Framed (λ t. record t { pams = slot_set t.pams id (fresh_pam lib id) })
              λ t. record {
                same = λ j ne. get_elem?-set_ne t.pams id j (Slot.live (fresh_pam lib id)) ne;
                asked = ([], refl);
              })
            λ v. bind-Framed get-Framed λ s'. bind-Framed (call-Framed c) λ status.
              bind-Framed (update-Framed (λ p. record p { handle = lib.handle s'.calls c })) λ w.
                if_Framed (not (is_success status)) (ret-Framed true) (
                  bind-Framed (item_set-Framed ItemType.tty tty_name)
                    λ t_status. if_Framed t_status (ret-Framed true) (item_set-Framed ruser login))

    start-Framed :
        (name tty_name : Option Str) (login : Str)
        → Framed (entrance_pam_start lib id name tty_name login)
    unfolding entrance_pam_start
    start-Framed name none login = ret-Framed true
    start-Framed name (some []) login = ret-Framed true
    start-Framed name (some (t ∷ ts)) login = start_on-Framed name (t ∷ ts) login

    silently-Framed : {A : Type 0} {m : M PamState A} → Framed m → Framed (silently m)
    silently-Framed km = bind-Framed km (λ a. ret-Framed tt)

    run_op-Framed : (strdup : Str → Option Str) (op : PamOp) → Framed (run_op lib strdup id op)
    unfolding run_op
    run_op-Framed strdup (op_start name tty_name login) =
        silently-Framed (start-Framed name tty_name login)
    run_op-Framed strdup op_authenticate = silently-Framed authenticate-Framed
    run_op-Framed strdup op_session_open = silently-Framed open-Framed
    run_op-Framed strdup op_session_close = close-Framed
    run_op-Framed strdup op_end = silently-Framed end-Framed
    run_op-Framed strdup op_env_list_get = silently-Framed env_list-Framed
    run_op-Framed strdup (op_item_set type value) = silently-Framed (item_set-Framed type value)
    run_op-Framed strdup (op_item_get type) = silently-Framed (item_get-Framed type)
    run_op-Framed strdup (op_env_set env value) = silently-Framed (env_set-Framed env value)
    run_op-Framed strdup (op_passwd_set w) = silently-Framed (passwd-Framed strdup w)

-- An operation on a seat, whichever it is and whatever the library answers, leaves every other
-- seat's transaction as it was and only adds to what was asked of the library.
pub run_op_frame :
    (lib : PamLib) (strdup : Str → Option Str) (id : ℕ) (op : PamOp) (s s' : PamState)
    → run_op lib strdup id op s ≡ some (tt, s')
    → SameElsewhere id s.pams s'.pams × ((cs : List PamCall) × (s'.calls ≡ cs ++ s.calls))
run_op_frame lib strdup id op s s' e =
    let k = (run_op-Framed id lib strdup op).keeps s tt s' e in (k.same, k.asked)

-- The calls so far begin with those of an earlier state.
abbrev pub Grown : List PamCall → List PamCall → Type 0
Grown before calls = (cs : List PamCall) × (calls ≡ cs ++ before)

module _ (lib : PamLib) (strdup : Str → Option Str) (id : ℕ) (before : List PamCall) where
  -- A step of the module only adds to the calls.
  Grows : {A : Type 0} → M PamState A → Type 0
  Grows {A} m = Ensures (λ s. Grown before s.calls) m (λ a s. Grown before s.calls)

  framed-Grows : {A : Type 0} {m : M PamState A} → Framed id m → Grows m
  unfolding Grows
  framed-Grows {A} {m} f = record {
    ensures = λ s a t (cs, p) e.
        let k = (f.keeps s a t e).asked in
        (k.0 ++ cs, k.1 ∙ ap (◌++◌ k.0) p ∙ sym (append_assoc k.0 cs before));
  }

  pub item_get_grows :
      (type : ItemType)
      → Ensures
          (λ s. Grown before s.calls)
          (entrance_pam_item_get lib id type)
          (λ a s. Grown before s.calls)
  unfolding framed-Grows Grows
  item_get_grows type = framed-Grows (item_get-Framed id lib type)

  pub start_grows :
      (name tty_name : Option Str) (login : Str)
      → Ensures
          (λ s. Grown before s.calls)
          (entrance_pam_start lib id name tty_name login)
          (λ a s. Grown before s.calls)
  unfolding framed-Grows Grows
  start_grows name tty_name login = framed-Grows (start-Framed id lib name tty_name login)

  pub passwd_set_grows :
      (passwd : Str)
      → Ensures
          (λ s. Grown before s.calls)
          (entrance_pam_passwd_set strdup id passwd)
          (λ a s. Grown before s.calls)
  unfolding framed-Grows Grows
  passwd_set_grows passwd = framed-Grows (passwd-Framed id strdup passwd)
