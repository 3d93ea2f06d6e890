-- ===== src/Server.antt =====
-- The daemon's side of a login: `entrance_session_login` of src/daemon/entrance_session.c and the
-- handlers of src/daemon/entrance_server.c, over the state of all the parts that they change.
pub mod Defs
pub mod Login
pub mod Grant
pub mod Launches
pub mod Socket
pub mod Starts
pub mod Trace
