-- ===== src/Pam.antt =====
-- src/daemon/entrance_pam.c: one PAM transaction for each seat. The PAM library is a parameter: it
-- answers each call from all that was asked of it before. An `int` that is 0 for success is a
-- `Bool` that is `false` for success. Log lines and failing `calloc`s are left out.
pub mod Auth
pub mod Conv
pub mod Open
pub mod Frame
use entrance.Common.{
  ℕ, suc, ◌+◌, ltb, Bool, true, false, not, List, [], ◌∷◌, ◌++◌, Option, none, some, String, Str,
  codes, truncate, if◌then◌else◌, ◌||◌, M, ◌>>=◌, ◌>>◌, ret, get, modify, deref, Slot, slot_get,
  slot_set, get_elem?, set, length, replicate,
}

pub data PamResult : Type 0 where
  success system_err buf_err authinfo_unavail perm_denied auth_err : PamResult
  cred_insufficient user_unknown maxtries acct_expired cred_err abort bad_item : PamResult
  unknown : ℕ → PamResult

pub data ItemType : Type 0 where
  service user tty ruser rhost conv : ItemType

pub data MessageStyle : Type 0 where
  prompt_echo_on prompt_echo_off error_msg text_info unknown_style : MessageStyle

pub record PamMessage : Type 0 where
  pub msg_style : MessageStyle
  pub msg : Str

pub data CredFlag : Type 0 where
  establish_cred delete_cred : CredFlag

-- What the daemon asks of the PAM library, with the handle; and what the conversation function
-- hands back to it.
pub data PamCall : Type 0 where
  pam_start : Option Str → Str → PamCall
  pam_set_item : Option ℕ → ItemType → Str → PamCall
  pam_get_item : Option ℕ → ItemType → PamCall
  pam_authenticate pam_acct_mgmt pam_open_session pam_close_session : Option ℕ → PamCall
  pam_setcred : Option ℕ → CredFlag → PamCall
  pam_putenv : Option ℕ → Str → PamCall
  pam_getenvlist : Option ℕ → PamCall
  pam_end : Option ℕ → PamResult → PamCall
  responses : List (Option Str) → PamCall

-- The library's answers, from the calls before (newest first) and the call itself.
pub record PamLib : Type 0 where
  pub result : List PamCall → PamCall → PamResult
  pub handle : List PamCall → PamCall → Option ℕ
  pub item : List PamCall → PamCall → Option Str
  pub environment : List PamCall → PamCall → List Str
  pub messages : List PamCall → PamCall → List PamMessage

pub record Pam : Type 0 where
  pub id : ℕ
  pub passwd : Option Str
  pub last_result : PamResult
  pub opened : Bool
  pub handle : Option ℕ
  pub msgs : Str

pub record PamState : Type 0 where
  pub pams : List (Slot Pam)
  pub calls : List PamCall

unfoldable pub entrance_pam_result_check : PamResult → Bool
entrance_pam_result_check success = false
entrance_pam_result_check _ = true

abbrev pub is_success : PamResult → Bool
is_success success = true
is_success _ = false

abbrev pub pam_at : ℕ → M PamState Pam
pam_at id s = deref (slot_get s.pams id) s

-- An assignment to fields of `*_pams[id]`.
unfoldable pub update : ℕ → (Pam → Pam) → M PamState (Unit {0})
update id f = do p ← pam_at id; modify (λ s. record s { pams = slot_set s.pams id (f p) })

abbrev br : Str
br = codes "<br/>"

conv_message : ℕ → MessageStyle → Str → M PamState (Option Str)
unfolding update
conv_message id prompt_echo_off text = do p ← pam_at id; ret p.passwd
conv_message id text_info text = do
  p ← pam_at id
  update id (λ q. record q { msgs = if ltb 1 (length q.msgs) then q.msgs ++ br else q.msgs })
  update id (λ q. record q { msgs = q.msgs ++ text })
  ret none
conv_message id _ text = ret none

unfoldable pub entrance_pam_conv : ℕ → List PamMessage → M PamState (List (Option Str))
unfolding conv_message
entrance_pam_conv id [] = ret []
entrance_pam_conv id (m ∷ ms) = do
  r ← conv_message id m.msg_style m.msg
  rs ← entrance_pam_conv id ms
  ret (r ∷ rs)

unfoldable pub entrance_pam_conv_msgs_get : ℕ → M PamState Str
entrance_pam_conv_msgs_get id = do p ← pam_at id; ret p.msgs

unfoldable pub entrance_pam_last_result_get : ℕ → M PamState PamResult
entrance_pam_last_result_get id = do p ← pam_at id; ret p.last_result

-- `strdup` is NULL when memory is exhausted.
unfoldable pub entrance_pam_passwd_set : (Str → Option Str) → ℕ → Str → M PamState Bool
unfolding update
entrance_pam_passwd_set strdup id passwd = do
  update id (λ p. record p { passwd = strdup passwd })
  p ← pam_at id
  ret (elim p.passwd [ none ↦ true | some d ↦ false ])

unfoldable pub entrance_pams_init : ℕ → M PamState (Unit {0})
entrance_pams_init count = modify λ s. record s { pams = replicate count Slot.null }

unfoldable pub entrance_pams_shutdown : M PamState (Unit {0})
entrance_pams_shutdown = modify λ s. record s { pams = [] }

shutdown_slot : ℕ → Option (Slot Pam) → M PamState (Unit {0})
shutdown_slot id none s = none
shutdown_slot id (some Slot.null) s = some (tt, s)
shutdown_slot id (some Slot.freed) s = none
shutdown_slot id (some (Slot.live p)) s = some (tt, record s { pams = set s.pams id Slot.freed })

-- `_pams[id]` keeps the address of what it frees.
unfoldable pub entrance_pam_shutdown : ℕ → M PamState (Unit {0})
unfolding shutdown_slot
entrance_pam_shutdown id s = shutdown_slot id (get_elem? s.pams id) s

module _ (lib : PamLib) where
  unfoldable pub call : PamCall → M PamState PamResult
  call c s = some (lib.result s.calls c, record s { calls = c ∷ s.calls })

  -- A call in which the library may converse first.
  unfoldable pub call_conv : ℕ → PamCall → M PamState PamResult
  unfolding call entrance_pam_conv
  call_conv id c = do
    s ← get
    rs ← entrance_pam_conv id (lib.messages s.calls c)
    modify (λ t. record t { calls = responses rs ∷ t.calls })
    call c

  abbrev set_result : ℕ → PamResult → M PamState (Unit {0})
  set_result id r = update id (λ p. record p { last_result = r })

  unfoldable pub entrance_pam_end : ℕ → M PamState PamResult
  unfolding call update
  entrance_pam_end id = do
    p ← pam_at id
    result ← call (pam_end p.handle p.last_result)
    update id (λ q. record q { handle = none; msgs = [] })
    ret result

  end_quietly : ℕ → M PamState (Unit {0})
  unfolding entrance_pam_end
  end_quietly id = entrance_pam_end id >>= λ _. ret tt

  -- `pam_setcred` and `pam_open_session` are taken to hold no conversation.
  unfoldable pub entrance_pam_session_open : ℕ → M PamState Bool
  unfolding call end_quietly entrance_pam_result_check update
  entrance_pam_session_open id = do
    p ← pam_at id
    r ← call (pam_setcred p.handle establish_cred)
    set_result id r
    if entrance_pam_result_check r then ret true else do
      o ← call (pam_open_session p.handle)
      set_result id o
      if is_success o
          then ret tt
          else do d ← call (pam_setcred p.handle delete_cred); end_quietly id
      update id (λ q. record q { opened = true })
      ret false

  unfoldable pub entrance_pam_session_close : ℕ → M PamState (Unit {0})
  unfolding call end_quietly update
  entrance_pam_session_close id = do
    p ← pam_at id
    r ← call (pam_close_session p.handle)
    set_result id r
    if p.opened || not (is_success r)
        then (do
          d ← call (pam_setcred p.handle delete_cred)
          set_result id d
          if is_success d then ret tt else end_quietly id)
        else ret tt

  -- The second half of `entrance_pam_authenticate`.
  check_account : ℕ → Option ℕ → M PamState Bool
  unfolding call_conv entrance_pam_result_check update
  check_account id handle = do
    a ← call_conv id (pam_acct_mgmt handle)
    set_result id a
    ret (entrance_pam_result_check a)

  unfoldable pub entrance_pam_authenticate : ℕ → M PamState Bool
  unfolding call_conv entrance_pam_result_check update check_account
  entrance_pam_authenticate id = do
    p ← pam_at id
    r ← call_conv id (pam_authenticate p.handle)
    set_result id r
    if entrance_pam_result_check r then ret true else check_account id p.handle

  unfoldable pub entrance_pam_item_set : ℕ → ItemType → Str → M PamState Bool
  unfolding call update
  entrance_pam_item_set id type value = do
    p ← pam_at id
    r ← call (pam_set_item p.handle type value)
    set_result id r
    ret (not (is_success r))

  unfoldable pub entrance_pam_item_get : ℕ → ItemType → M PamState (Option Str)
  unfolding call end_quietly update
  entrance_pam_item_get id type = do
    p ← pam_at id
    s ← get
    r ← call (pam_get_item p.handle type)
    set_result id r
    if is_success r
        then ret (lib.item s.calls (pam_get_item p.handle type))
        else do end_quietly id; ret none

  unfoldable pub entrance_pam_env_set : ℕ → Option Str → Option Str → M PamState Bool
  unfolding call end_quietly update
  entrance_pam_env_set id none value = ret true
  entrance_pam_env_set id (some env) none = ret true
  entrance_pam_env_set id (some env) (some value) = do
    p ← pam_at id
    r ← call (pam_putenv p.handle (truncate 1024 (env ++ codes "=" ++ value)))
    set_result id r
    if is_success r then ret false else do end_quietly id; ret true

  unfoldable pub entrance_pam_env_list_get : ℕ → M PamState (List Str)
  unfolding call
  entrance_pam_env_list_get id = do
    p ← pam_at id
    s ← get
    r ← call (pam_getenvlist p.handle)
    ret (lib.environment s.calls (pam_getenvlist p.handle))

  -- A live transaction of the seat is ended before its structure is replaced.
  end_previous : ℕ → Option (Slot Pam) → M PamState (Unit {0})
  unfolding end_quietly
  end_previous id none s = none
  end_previous id (some Slot.null) s = some (tt, s)
  end_previous id (some Slot.freed) s = none
  end_previous id (some (Slot.live p)) s = elim p.handle [
    | none ↦ some (tt, s)
    | some h ↦ end_quietly id s
  ]

  abbrev pub fresh_pam : ℕ → Pam
  fresh_pam id = record {
    id = id;
    passwd = none;
    last_result = success;
    opened = false;
    handle = none;
    msgs = [];
  }

  -- `entrance_pam_start` behind its test of the tty. `true` is the code's 1, a failure.
  start_on : ℕ → Option Str → Str → Str → M PamState Bool
  unfolding end_previous call update entrance_pam_item_set
  start_on id name tty_name login = do
    s ← get
    end_previous id (get_elem? s.pams id)
    modify (λ t. record t { pams = slot_set t.pams id (fresh_pam id) })
    s' ← get
    let c = pam_start (elim name [ none ↦ some (codes "entrance") | some n ↦ some n ]) login
    status ← call c
    update id (λ p. record p { handle = lib.handle s'.calls c })
    if not (is_success status) then ret true else do
      t_status ← entrance_pam_item_set id ItemType.tty tty_name
      if t_status then ret true else entrance_pam_item_set id ruser login

  unfoldable pub entrance_pam_start : ℕ → Option Str → Option Str → Str → M PamState Bool
  unfolding start_on
  entrance_pam_start id name none login = ret true
  entrance_pam_start id name (some []) login = ret true
  entrance_pam_start id name (some (t ∷ ts)) login = start_on id name (t ∷ ts) login

-- The operations of the module on a seat, as values.
pub data PamOp : Type 0 where
  op_start : Option Str → Option Str → Str → PamOp
  op_authenticate op_session_open op_session_close op_end op_env_list_get : PamOp
  op_item_set : ItemType → Str → PamOp
  op_item_get : ItemType → PamOp
  op_env_set : Option Str → Option Str → PamOp
  op_passwd_set : Str → PamOp

abbrev pub silently : {A : Type 0} → M PamState A → M PamState (Unit {0})
silently m = m >>= λ _. ret tt

unfoldable pub run_op : PamLib → (Str → Option Str) → ℕ → PamOp → M PamState (Unit {0})
run_op lib strdup id (op_start name tty_name login) =
    silently (entrance_pam_start lib id name tty_name login)
run_op lib strdup id op_authenticate = silently (entrance_pam_authenticate lib id)
run_op lib strdup id op_session_open = silently (entrance_pam_session_open lib id)
run_op lib strdup id op_session_close = entrance_pam_session_close lib id
run_op lib strdup id op_end = silently (entrance_pam_end lib id)
run_op lib strdup id op_env_list_get = silently (entrance_pam_env_list_get lib id)
run_op lib strdup id (op_item_set type value) = silently (entrance_pam_item_set lib id type value)
run_op lib strdup id (op_item_get type) = silently (entrance_pam_item_get lib id type)
run_op lib strdup id (op_env_set env value) = silently (entrance_pam_env_set lib id env value)
run_op lib strdup id (op_passwd_set passwd) = silently (entrance_pam_passwd_set strdup id passwd)
