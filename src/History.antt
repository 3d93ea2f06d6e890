-- ===== src/History.antt =====
-- src/daemon/entrance_history.c: the login history and the list of users. Both lists hold pointers
-- to `Entrance_Login` structures, some to the same ones: the structures stand in a store, and a
-- pointer is an index into it. A released structure stays in the store as `freed`.
-- Reading the cache file is in History/Conf; log lines are left out, and what a write stores is kept.
pub mod Check
pub mod Conf
pub mod Live
pub mod Shutdown
use entrance.Image.{Image, Files, entrance_image_user_icons, entrance_image_user_backgrounds}
use entrance.Common.{
  ℕ, zero, suc, ltb, Bool, true, false, not, ◌&&◌, List, [], ◌∷◌, ◌++◌, Option, none, some, Str,
  str_eq, if◌then◌else◌, M, ◌>>=◌, ◌>>◌, ret, get, modify, deref, Slot, slot_get, slot_set, set,
  length, ◌==◌, is_some,
}

pub record EntranceLogin : Type 0 where
  pub login : Str
  pub session : Option Str
  pub bg : Image
  pub image : Image
  pub remember_session : Bool
  pub icon_pool : List Image
  pub background_pool : List Image

-- `written` is what the last write to the cache file stored.
pub record HistoryState : Type 0 where
  pub store : List (Slot EntranceLogin)
  pub history : List ℕ
  pub lusers : List ℕ
  pub history_update : Bool
  pub written : Option (List EntranceLogin)

abbrev pub login_at : ℕ → M HistoryState EntranceLogin
login_at el s = deref (slot_get s.store el) s

update : ℕ → (EntranceLogin → EntranceLogin) → M HistoryState (Unit {0})
update el f = do e ← login_at el; modify (λ s. record s { store = slot_set s.store el (f e) })

abbrev pub no_image : Image
no_image = record { group = none; path = none }

-- What `calloc` leaves in a new structure, with its login set and its session to be remembered.
abbrev pub new_login : Str → Option Str → EntranceLogin
new_login login session = record {
  login = login;
  session = session;
  bg = no_image;
  image = no_image;
  remember_session = true;
  icon_pool = [];
  background_pool = [];
}

-- A new structure's address is the end of the store.
allocate : EntranceLogin → M HistoryState ℕ
allocate e = do
  s ← get
  modify (λ t. record t { store = t.store ++ Slot.live e ∷ [] })
  ret (length s.store)

-- The loop over the history: the first structure with this login, or NULL.
unfoldable pub find_login : Str → List ℕ → M HistoryState (Option ℕ)
find_login login [] = ret none
find_login login (l ∷ ls) = do
  el ← login_at l
  if str_eq login el.login then ret (some l) else find_login login ls

-- The new session of a structure, and whether the file has to be written.
unfoldable pub new_session : EntranceLogin → Option Str → Option Str × Bool
new_session el none = if el.remember_session then (none, false) else (el.session, false)
new_session el (some name) =
    if el.remember_session
    then elim el.session [
      | none ↦ (none, false)
      | some old ↦ if str_eq name old then (some old, false) else (some name, true)
    ]
    else (el.session, false)

update_entry : ℕ → Option Str → M HistoryState (Unit {0})
unfolding update new_session
update_entry l session = do
  el ← login_at l
  update l (λ e. record e { session = (new_session el session).0 })
  if (new_session el session).1 then modify (λ s. record s { history_update = true }) else ret tt

add_entry : Str → Option Str → M HistoryState (Unit {0})
unfolding allocate
add_entry login session = do
  el ← allocate (new_login login session)
  modify (λ s. record s { history = s.history ++ el ∷ []; history_update = true })

unfoldable pub entrance_history_check : Str → Option Str → M HistoryState (Unit {0})
unfolding find_login update_entry add_entry
entrance_history_check login session = do
  s ← get
  found ← find_login login s.history
  elim found [ none ↦ add_entry login session | some l ↦ update_entry l session ]

-- The comparison is of shared strings, equal as pointers when they are equal as text.
unfoldable pub entrance_history_match : Str → M HistoryState (Option ℕ)
unfolding find_login
entrance_history_match login = do s ← get; find_login login s.history

unfoldable pub entrance_history_get : M HistoryState (List ℕ)
entrance_history_get = do s ← get; ret s.lusers

unfoldable pub read_all : List ℕ → M HistoryState (List EntranceLogin)
read_all [] = ret []
read_all (l ∷ ls) = do e ← login_at l; es ← read_all ls; ret (e ∷ es)

unfoldable pub entrance_history_write : M HistoryState (Unit {0})
unfolding read_all
entrance_history_write = do
  s ← get
  if s.history_update
      then (do es ← read_all s.history; modify (λ t. record t { written = some es }))
      else ret tt

-- `fgets`'s lines of the password file, cut at colons: `strtok_r` skips empty fields.
split_tokens : Str → List ℕ → List Str
split_tokens [] [] = []
split_tokens (c ∷ word) [] = (c ∷ word) ∷ []
split_tokens word (b ∷ bs) =
    let rest = split_tokens [] bs in
    if b == b':'
    then elim word [ [] ↦ rest | c ∷ w ↦ (c ∷ w) ∷ rest ]
    else split_tokens (word ++ b ∷ []) bs

-- What the scan of the password file asks of the system: the lines of the file (none when it cannot
-- be opened), `atoi`, and whether `stat` finds a path.
pub record Scan : Type 0 where
  pub files : Files
  pub lines : Option (List Str)
  pub atoi : Str → ℕ
  pub exists : Str → Bool

module _ (sys : Scan) where
  -- The user that a line of the password file yields.
  line_user : List Str → Option Str
  line_user (user ∷ passwd ∷ token ∷ rest) =
      if ltb 999 (sys.atoi token) && ltb (sys.atoi token) 65534 then some user else none
  line_user _ = none

  scan_users : List Str → List Str
  unfolding line_user split_tokens
  scan_users [] = []
  scan_users (line ∷ lines) =
      let rest = scan_users lines in
      elim (line_user (split_tokens [] line)) [ none ↦ rest | some user ↦ user ∷ rest ]

  abbrev checked_path : Option Str → Option Str
  checked_path none = none
  checked_path (some path) = if sys.exists path then some path else none

  -- The paths that cannot be found are dropped, and the pools are read anew.
  unfoldable pub refreshed : EntranceLogin → EntranceLogin
  refreshed e = record e {
    image = record (e.image) { path = checked_path e.image.path };
    bg = record (e.bg) { path = checked_path e.bg.path };
    icon_pool = entrance_image_user_icons sys.files (some e.login);
    background_pool = entrance_image_user_backgrounds sys.files (some e.login);
  }

  user_entry : Str → M HistoryState ℕ
  unfolding entrance_history_match allocate
  user_entry user = do
    found ← entrance_history_match user
    elim found [ none ↦ allocate (new_login user none) | some eu ↦ ret eu ]

  add_user : Str → M HistoryState (Unit {0})
  unfolding user_entry update
  add_user user = do
    eu ← user_entry user
    update eu refreshed
    modify (λ s. record s { lusers = s.lusers ++ eu ∷ [] })

  add_users : List Str → M HistoryState (Unit {0})
  unfolding add_user
  add_users [] = ret tt
  add_users (user ∷ users) = do add_user user; add_users users

  unfoldable pub entrance_user_init : M HistoryState (Unit {0})
  unfolding scan_users add_users
  entrance_user_init s = elim sys.lines [
    | none ↦ some (tt, s)
    | some lines ↦ add_users (scan_users lines) s
  ]

-- `free(p)`: a fault unless the structure is there and was not freed before.
unfoldable pub free_at : ℕ → M HistoryState (Unit {0})
free_at el = do e ← login_at el; modify (λ s. record s { store = set s.store el Slot.freed })

-- `eina_list_remove`: the first occurrence.
unfoldable pub remove : ℕ → List ℕ → List ℕ
remove el [] = []
remove el (l ∷ ls) = if l == el then ls else l ∷ remove el ls

unfoldable pub user_shutdown : List ℕ → M HistoryState (Unit {0})
unfolding free_at remove
user_shutdown [] = modify (λ s. record s { lusers = [] })
user_shutdown (eu ∷ lusers) = do
  modify (λ s. record s { history = remove eu s.history })
  free_at eu
  user_shutdown lusers

unfoldable pub free_history : List ℕ → M HistoryState (Unit {0})
unfolding free_at
free_history [] = modify (λ s. record s { history = [] })
free_history (el ∷ history) = do free_at el; free_history history

unfoldable pub entrance_history_shutdown : M HistoryState (Unit {0})
unfolding entrance_history_write user_shutdown free_history
entrance_history_shutdown = do
  entrance_history_write
  s ← get
  user_shutdown s.lusers
  t ← get
  free_history t.history
