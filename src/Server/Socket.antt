-- ===== src/Server/Socket.antt =====
-- src/daemon/entrance_server.c: the daemon's socket, which is given to the user of the greeters.
use entrance.Common.{ℕ, Bool, List, [], ◌∷◌, ◌++◌, Str, codes, decimal, truncate, if◌then◌else◌}

pub data ServerHandler : Type 0 where
  client_add client_del client_data : ServerHandler

-- What is asked of Ecore, the newest first. `sent` has a client and its data.
pub data SocketCall : Type 0 where
  con_init con_shutdown event_init event_shutdown server_del : SocketCall
  server_add : ℕ → SocketCall
  chowned : Str → ℕ → ℕ → SocketCall
  sent : ℕ → List ℕ → SocketCall

-- `server` is whether `_entrance_server` is not NULL, `clients` the connections that Ecore has.
pub record Socket : Type 0 where
  pub server : Bool
  pub handlers : List ServerHandler
  pub clients : List ℕ
  pub calls : List SocketCall

-- `dirname`, the directory of the caches, the configured port, and whether the socket can be made.
pub record SocketSystem : Type 0 where
  pub dirname : Str → Str
  pub cache_dir : Str
  pub port : ℕ
  pub can_add : Bool

unfoldable pub asked : SocketCall → Socket → Socket
asked c s = record s { calls = c ∷ s.calls }

module _ (sys : SocketSystem) where
  -- The socket's file, and the place of efreet's.
  unfoldable pub socket_path : Str
  unfolding decimal
  socket_path = truncate 1024 (sys.cache_dir ++ codes "/.ecore/entrance/" ++ decimal sys.port)

  unfoldable pub efreet_path : Str
  efreet_path = truncate 1024 (sys.cache_dir ++ codes "/.ecore/efreetd/0")

  abbrev chown_all : ℕ → ℕ → List Str → Socket → Socket
  chown_all uid gid [] s = s
  chown_all uid gid (p ∷ ps) s = chown_all uid gid ps (asked (chowned p uid gid) s)

  -- The file and its two directories, and efreet's file and its directory.
  unfoldable pub owned_paths : List Str
  unfolding socket_path efreet_path
  owned_paths =
      socket_path
      ∷ sys.dirname socket_path
      ∷ sys.dirname (sys.dirname socket_path)
      ∷ efreet_path
      ∷ sys.dirname efreet_path
      ∷ []

  -- A socket that cannot be made is only logged.
  unfoldable pub entrance_server_init : ℕ → ℕ → Socket → Socket
  unfolding asked owned_paths
  entrance_server_init uid gid s =
      let t = asked event_init (asked con_init s) in
      let u = chown_all uid gid owned_paths (asked (server_add sys.port) t) in
      record u {
        server = sys.can_add;
        handlers = u.handlers ++ client_add ∷ client_del ∷ client_data ∷ [];
      }

abbrev send_all : List ℕ → List ℕ → Socket → Socket
send_all data_ [] s = s
send_all data_ (c ∷ cs) s = send_all data_ cs (asked (sent c data_) s)

-- The data goes to each client that is connected.
unfoldable pub entrance_server_write_cb : List ℕ → Socket → Socket
unfolding asked
entrance_server_write_cb data_ s = send_all data_ s.clients s

abbrev delete_server : Socket → Socket
delete_server s = if s.server then asked server_del s else s

unfoldable pub entrance_server_shutdown : Socket → Socket
unfolding asked
entrance_server_shutdown s =
    let t = record (delete_server s) { handlers = [] } in
    asked con_shutdown (asked event_shutdown t)
