-- ===== src/Config/Start.antt =====
-- The configuration with which `main` of src/daemon/entrance.c goes on.
use entrance.Config.{
  EntranceConfig, Cache, ConfText, Configured, ConfigSystem, defaults, cached_text, after_conf_get,
  conf_get, entrance_config_defaults_set, read_cache, read_config, cache_get, outdated,
  entrance_config_init, config_start,
}
use entrance.Common.{
  ℕ, ◌≡◌, refl, sym, ◌∙◌, ap, ◌⊎◌, inl, inr, Bool, true, false, ◌∷◌, Option, none, some, Str, arith,
  if◌then◌else◌, ◌<◌, ◌≤◌, Option-cases,
}

-- The cache after the update, if there is one.
abbrev pub cache_after : ConfigSystem → Option Cache → Option ConfText → Option Cache
cache_after sys cache conf =
    if outdated sys cache conf then after_conf_get sys conf cache else cache

-- What reading a cache answers.
abbrev pub cached : Option Cache → Option EntranceConfig
cached none = none
cached (some cache) = cache.config

read-run :
    (sys : ConfigSystem) (o : Option Cache) (s : Configured)
    → (t : Configured) × ((read_cache sys o s ≡ some (cached o, t))
        × ((t.cache ≡ s.cache) × (t.conf ≡ s.conf)))
unfolding read_cache read_config entrance_config_defaults_set
read-run sys none s = (s, (refl, (refl, refl)))
read-run sys (some cache) s = by_config cache.config
  where
    by_config :
        (c : Option EntranceConfig)
        → (t : Configured) × ((read_config sys c s ≡ some (c, t))
            × ((t.cache ≡ s.cache) × (t.conf ≡ s.conf)))
    by_config none = (record s { config = some (defaults sys) }, (refl, (refl, refl)))
    by_config (some c) = (s, (refl, (refl, refl)))

-- The state after the update of the cache.
updated : ConfigSystem → Configured → Configured
updated sys s =
    if outdated sys s.cache s.conf
    then record s { cache = after_conf_get sys s.conf s.cache }
    else s

updated-cache :
    (sys : ConfigSystem) (s : Configured) → (updated sys s).cache ≡ cache_after sys s.cache s.conf
unfolding updated
updated-cache sys s = by_test (outdated sys s.cache s.conf)
  where
    by_test :
        (b : Bool)
        → (if b then record s { cache = after_conf_get sys s.conf s.cache } else s).cache
          ≡ (if b then after_conf_get sys s.conf s.cache else s.cache)
    by_test true = refl
    by_test false = refl

updated-conf : (sys : ConfigSystem) (s : Configured) → (updated sys s).conf ≡ s.conf
unfolding updated
updated-conf sys s = by_test (outdated sys s.cache s.conf)
  where
    by_test :
        (b : Bool)
        → (if b then record s { cache = after_conf_get sys s.conf s.cache } else s).conf ≡ s.conf
    by_test true = refl
    by_test false = refl

init-run :
    (sys : ConfigSystem) (s : Configured)
    → (t : Configured) × ((entrance_config_init sys s ≡ some (tt, t))
        × ((t.config ≡ cached (cache_after sys s.cache s.conf))
            × ((t.cache ≡ cache_after sys s.cache s.conf) × (t.conf ≡ s.conf))))
unfolding entrance_config_init cache_get conf_get updated
init-run sys s =
    let u = updated sys s in
    let at = updated-cache sys s in
    let (v, (run, (same, kept))) = read-run sys u.cache u in
    (
      record v { config = cached u.cache },
      (
        by_test (outdated sys s.cache s.conf) refl u v refl run,
        (ap cached at, (same ∙ at, kept ∙ updated-conf sys s)),
      ),
    )
  where
    by_test :
        (b : Bool)
        → outdated sys s.cache s.conf ≡ b
        → (u v : Configured)
        → (if b then record s { cache = after_conf_get sys s.conf s.cache } else s) ≡ u
        → read_cache sys u.cache u ≡ some (cached u.cache, v)
        → entrance_config_init sys s ≡ some (tt, record v { config = cached u.cache })
    by_test true e u v eu run = ground arith
    by_test false e u v eu run = ground arith

abbrev pub or_default : ConfigSystem → Option EntranceConfig → EntranceConfig
or_default sys none = defaults sys
or_default sys (some config) = config

start-run :
    (sys : ConfigSystem) (s : Configured)
    → (t : Configured) × ((config_start sys s ≡ some (tt, t))
        × ((t.config ≡ some (or_default sys (cached (cache_after sys s.cache s.conf))))
            × ((t.cache ≡ cache_after sys s.cache s.conf) × (t.conf ≡ s.conf))))
unfolding config_start entrance_config_defaults_set
start-run sys s =
    let (u, (run, (c, (at, kept)))) = init-run sys s in
    elim (Option-cases u.config) [
      | inl empty ↦ (
        record u { config = some (defaults sys) },
        (ground arith, (ap (λ o. some (or_default sys o)) (sym empty ∙ c), (at, kept))),
      )
      | inr (config, there) ↦ (
        u,
        (ground arith, (there ∙ ap (λ o. some (or_default sys o)) (sym there ∙ c), (at, kept))),
      )
    ]

-- A configuration text that is younger than the cache, or has no cache.
abbrev pub Edited : Option Cache → ConfText → Type 0
Edited cache conf = (cache ≡ none) ⊎ ((c : Cache) × ((cache ≡ some c) × (c.mtime < conf.mtime)))

Edited-outdated :
    (sys : ConfigSystem) (cache : Option Cache) (conf : ConfText)
    → Edited cache conf
    → outdated sys cache (some conf) ≡ true
unfolding outdated
Edited-outdated sys cache conf (inl e) = ground arith
Edited-outdated sys cache conf (inr (c, (e, l))) = ground arith

Edited-cache :
    (sys : ConfigSystem) (cache : Option Cache) (conf : ConfText) (c : ℕ) (text : Str)
    (config : EntranceConfig)
    → Edited cache conf
    → conf.text ≡ c ∷ text
    → sys.undump (c ∷ text) ≡ some config
    → cache_after sys cache (some conf) ≡ some (record { mtime = sys.now; config = some config })
unfolding cached_text
Edited-cache sys cache conf c text config ed e read =
    let old = Edited-outdated sys cache conf ed in ground arith

kept-cache :
    (sys : ConfigSystem) (cache : Cache) (conf : ConfText)
    → conf.mtime ≤ cache.mtime
    → cache_after sys (some cache) (some conf) ≡ some cache
unfolding outdated
kept-cache sys cache conf l = ground arith

-- When the configuration's text is younger than its cache, or has none, and Eet reads a configuration from
-- it, the daemon starts with that configuration; and when the text is not from the future, it has it again
-- at the next start, from the cache.
pub config_start-Edited :
    (sys next : ConfigSystem) (s : Configured) (conf : ConfText) (c : ℕ) (text : Str)
    (config : EntranceConfig)
    → s.conf ≡ some conf
    → Edited s.cache conf
    → conf.text ≡ c ∷ text
    → sys.undump (c ∷ text) ≡ some config
    → conf.mtime ≤ sys.now
    → (t : Configured) × (u : Configured) × ((config_start sys s ≡ some (tt, t))
        × ((t.config ≡ some config)
            × ((config_start next t ≡ some (tt, u)) × (u.config ≡ some config))))
config_start-Edited sys next s conf c text config there ed e read past =
    let (t, (run, (at, (cache, kept)))) = start-run sys s in
    let (u, (again, (at_u, k))) = start-run next t in
    let made = Edited-cache sys s.cache conf c text config ed e read in
    let now : cache_after sys s.cache s.conf
        ≡ some (record { mtime = sys.now; config = some config }) =
      ap (cache_after sys s.cache) there ∙ made in
    let later : cache_after next t.cache t.conf
        ≡ some (record { mtime = sys.now; config = some config }) =
      ap (λ o. cache_after next o t.conf) (cache ∙ now)
      ∙ (ap (cache_after next _) (kept ∙ there)
          ∙ kept-cache next (record { mtime = sys.now; config = some config }) conf past) in
    (
      t,
      u,
      (
        run,
        (
          at ∙ ap (λ o. some (or_default sys (cached o))) now,
          (again, at_u ∙ ap (λ o. some (or_default next (cached o))) later),
        ),
      ),
    )

-- Whatever the files have, the daemon starts with a configuration: the cached one, after its update, or the
-- defaults.
pub config_start_total :
    (sys : ConfigSystem) (s : Configured)
    → (t : Configured) × ((config_start sys s ≡ some (tt, t))
        × ((c : EntranceConfig) × (t.config ≡ some c)))
config_start_total sys s = let (t, (run, (at, k))) = start-run sys s in (t, (run, (_, at)))
