-- ===== src/Session.antt =====
-- src/daemon/entrance_session.c and entrance_session_utils.c: one session for each seat, in the build
-- with PAM. `entrance_session_login`, which needs the other parts, is in `Server/Login.antt`.
pub mod Defs
pub mod Desktops
pub mod Command
pub mod Run
pub mod Lookup
pub mod Names
pub mod Seat
pub mod Xauth
