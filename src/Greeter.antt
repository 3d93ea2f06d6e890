-- ===== src/Greeter.antt =====
-- src/bin: the greeter, the program that runs on each seat before a login. The login form and the
-- connection to the daemon are a state machine over the greeter's state.
pub mod Defs
pub mod Login
pub mod Main
pub mod Fill
pub mod Gui
pub mod Connect
pub mod Quiet
pub mod Screens
pub mod Sessions
pub mod Strings
pub mod Images
pub mod System
pub mod Theme
pub mod Words
