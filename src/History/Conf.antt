-- ===== src/History/Conf.antt =====
-- src/daemon/entrance_history.c: the cache of the history, which is made from users.conf when that text is
-- younger, and read at the start. `H` is what Eet stores of a history.
use entrance.Common.{
  ℕ, ◌≡◌, ap, Bool, true, false, [], ◌∷◌, Option, none, some, Str, if◌then◌else◌, ltb,
}

-- The cache file, and what can be read from it; and users.conf.
pub record HistoryCache (H : Type 0) : Type 0 where
  pub mtime : ℕ
  pub history : Option H

pub record UsersConf : Type 0 where
  pub mtime : ℕ
  pub text : Str

-- The files, with `_entrance_history`, where none is NULL.
pub record HistoryFiles (H : Type 0) : Type 0 where
  pub cache : Option (HistoryCache H)
  pub conf : Option UsersConf
  pub history : Option H

-- The time, what Eet makes of a text, what opening the cache for writing and closing it leaves, whether
-- the cache can be opened to be read, and the empty history.
pub record HistorySystem (H : Type 0) : Type 0 where
  pub now : ℕ
  pub undump : Str → Option H
  pub unwritten : Option (HistoryCache H) → Option (HistoryCache H)
  pub can_open : Option (HistoryCache H) → Bool
  pub empty : H

module _ {H : Type 0} (sys : HistorySystem H) where
  abbrev undumped : Option H → HistoryFiles H → HistoryFiles H
  undumped none s = record s { cache = sys.unwritten s.cache }
  undumped (some h) s = record s { cache = some (record { mtime = sys.now; history = some h }) }

  unfoldable pub entrance_users_conf_get : HistoryFiles H → HistoryFiles H
  entrance_users_conf_get s = elim s.conf [
    | none ↦ record s { cache = sys.unwritten s.cache }
    | some conf ↦ elim conf.text [
      | [] ↦ record s { cache = sys.unwritten s.cache }
      | c ∷ text ↦ undumped (sys.undump (c ∷ text)) s
    ]
  ]

  abbrev cached : Option (HistoryCache H) → H
  cached none = sys.empty
  cached (some cache) = elim cache.history [ none ↦ sys.empty | some h ↦ h ]

  -- A cache that cannot be opened leaves the history as it is, NULL at the start.
  unfoldable pub entrance_history_read : HistoryFiles H → HistoryFiles H
  entrance_history_read s =
      if sys.can_open s.cache then record s { history = some (cached s.cache) } else s

  unfoldable pub is_outdated : Option (HistoryCache H) → Option UsersConf → Bool
  is_outdated none conf = true
  is_outdated (some cache) none = false
  is_outdated (some cache) (some conf) = ltb cache.mtime conf.mtime

  -- entrance_history_init, before the users are scanned.
  unfoldable pub history_files_init : HistoryFiles H → HistoryFiles H
  unfolding entrance_users_conf_get entrance_history_read is_outdated
  history_files_init s =
      if is_outdated s.cache s.conf
      then entrance_history_read (entrance_users_conf_get s)
      else entrance_history_read s

  -- A cache that is not older than users.conf is read as it is: what was remembered stays.
  history_files_init-remembers :
      (s : HistoryFiles H) (cache : HistoryCache H) (h : H)
      → s.cache ≡ some cache
      → cache.history ≡ some h
      → is_outdated (some cache) s.conf ≡ false
      → sys.can_open (some cache) ≡ true
      → (history_files_init s).history ≡ some h
  unfolding history_files_init entrance_history_read
  history_files_init-remembers s cache h at has young opens = by_cache (s.cache) at
    where
      by_cache :
          (o : Option (HistoryCache H))
          → o ≡ some cache
          → (if is_outdated o s.conf
              then entrance_history_read (entrance_users_conf_get s)
              else if sys.can_open o
              then record s { history = some (cached o) }
              else s).history
            ≡ some h
      by_cache o e =
          rw (e, young, opens)
            (ap (λ (x : Option H). some (elim x as (λ _. H) [ none ↦ sys.empty | some k ↦ k ])) has)
