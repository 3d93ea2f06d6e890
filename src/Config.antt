-- ===== src/Config.antt =====
-- src/daemon/entrance_config.c: the daemon's configuration, which is a text file and a cache of it that is
-- made by Eet; and the part of `main` in src/daemon/entrance.c that reads it.
pub mod Fields
pub mod Start
use entrance.Common.{
  ℕ, Bool, true, false, List, [], ◌∷◌, ◌++◌, Option, none, some, Str, codes, M, ◌>>=◌, ◌>>◌, ret,
  get, modify, if◌then◌else◌, ltb,
}

-- `Entrance_Config`, where none is NULL.
pub record EntranceConfig : Type 0 where
  pub port : ℕ
  pub session : Option Str
  pub session_path : Option Str
  pub xinit_path : Option Str
  pub xinit_args : Option Str
  pub xauth_path : Option Str
  pub xauth_file : Option Str
  pub xdisplay : Option Str
  pub vtnr : ℕ
  pub session_start : Option Str
  pub session_login : Option Str
  pub session_stop : Option Str
  pub shutdown : Option Str
  pub reboot : Option Str
  pub suspend : Option Str
  pub capslock : Bool
  pub numlock : Bool
  pub xsessions : Bool
  pub autologin : Bool
  pub showlogin : Bool
  pub custom_conf : Bool
  pub req_passwd : Bool
  pub autoselect_last_user : Bool
  pub bg_path : Option Str
  pub bg_group : Option Str
  pub bg_random : Bool
  pub vkbd_enabled : Bool
  pub start_user : Option Str
  pub userlogin : Option Str
  pub lockfile : Option Str
  pub logfile : Option Str
  pub theme : Option Str

-- The cache file: when it was written, and its configuration, if one can be read from it.
pub record Cache : Type 0 where
  pub mtime : ℕ
  pub config : Option EntranceConfig

-- The configuration's text file.
pub record ConfText : Type 0 where
  pub mtime : ℕ
  pub text : Str

-- The files and the global `entrance_config`.
pub record Configured : Type 0 where
  pub cache : Option Cache
  pub conf : Option ConfText
  pub config : Option EntranceConfig

-- The directory of the system's configuration, the time, and Eet: what it makes of a text, and what
-- opening and closing the cache leaves of it when nothing is written.
pub record ConfigSystem : Type 0 where
  pub config_dir : Str
  pub now : ℕ
  pub undump : Str → Option EntranceConfig
  pub unwritten : Option Cache → Option Cache

module _ (sys : ConfigSystem) where
  unfoldable pub defaults : EntranceConfig
  defaults = record {
    port = 42;
    session = some (codes "Enlightenment");
    session_path = some (codes "/bin:/usr/bin:/usr/local/bin");
    xinit_path = some (codes "/usr/bin/X");
    xinit_args = some (codes "-nolisten tcp -br vt7");
    xauth_path = some (codes "/usr/bin/xauth");
    xauth_file = some (codes "/var/run/entrance.auth");
    xdisplay = some (codes ":0.0");
    vtnr = 7;
    session_start = some (codes "/usr/bin/sessreg -a -l");
    session_login = some (sys.config_dir ++ codes "/entrance/Xsession");
    session_stop = some (codes "/usr/bin/sessreg -d -l");
    shutdown = some (codes "/usr/bin/shutdown -h now");
    reboot = some (codes "/usr/bin/shutdown -r now");
    suspend = some (codes "/usr/sbin/suspend");
    capslock = false;
    numlock = false;
    xsessions = true;
    autologin = false;
    showlogin = true;
    custom_conf = false;
    req_passwd = true;
    autoselect_last_user = true;
    bg_path = none;
    bg_group = none;
    bg_random = false;
    vkbd_enabled = false;
    start_user = none;
    userlogin = some (codes "mylogintouse");
    lockfile = some (codes "/var/run/entrance.pid");
    logfile = some (codes "/var/log/entrance.log");
    theme = some (codes "default");
  }

  -- The text is written to the cache; an empty one, or one that Eet does not read, is not.
  unfoldable pub cached_text : Str → Option Cache → Option Cache
  cached_text [] cache = sys.unwritten cache
  cached_text (c ∷ text) cache = elim (sys.undump (c ∷ text)) [
    | none ↦ sys.unwritten cache
    | some config ↦ some (record { mtime = sys.now; config = some config })
  ]

  abbrev after_conf_get : Option ConfText → Option Cache → Option Cache
  after_conf_get none cache = sys.unwritten cache
  after_conf_get (some conf) cache = cached_text conf.text cache

  unfoldable pub conf_get : M Configured (Unit {0})
  unfolding cached_text
  conf_get = modify λ s. record s { cache = after_conf_get s.conf s.cache }

  unfoldable pub entrance_config_defaults_set : M Configured (Unit {0})
  unfolding defaults
  entrance_config_defaults_set = modify λ s. record s { config = some defaults }

  -- Without a configuration in the cache the global gets the defaults, and the answer is NULL.
  unfoldable pub read_config : Option EntranceConfig → M Configured (Option EntranceConfig)
  unfolding entrance_config_defaults_set
  read_config none = do entrance_config_defaults_set; ret none
  read_config (some config) = ret (some config)

  unfoldable pub read_cache : Option Cache → M Configured (Option EntranceConfig)
  unfolding read_config
  read_cache none = ret none
  read_cache (some cache) = read_config cache.config

  unfoldable pub cache_get : M Configured (Option EntranceConfig)
  unfolding read_cache
  cache_get = do s ← get; read_cache s.cache

  -- Whether the cache is to be made: there is none, or the text is younger.
  unfoldable pub outdated : Option Cache → Option ConfText → Bool
  outdated none conf = true
  outdated (some cache) none = false
  outdated (some cache) (some conf) = ltb cache.mtime conf.mtime

  unfoldable pub entrance_config_init : M Configured (Unit {0})
  unfolding conf_get cache_get outdated
  entrance_config_init = do
    s ← get
    (if outdated s.cache s.conf then conf_get else ret tt)
    config ← cache_get
    modify (λ t. record t { config = config })

  abbrev or_defaults : Option EntranceConfig → M Configured (Unit {0})
  or_defaults none = entrance_config_defaults_set
  or_defaults (some config) = ret tt

  -- The start of `main`.
  unfoldable pub config_start : M Configured (Unit {0})
  unfolding entrance_config_init entrance_config_defaults_set
  config_start = do entrance_config_init; s ← get; or_defaults s.config
