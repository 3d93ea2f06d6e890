-- ===== src/Lib.antt =====
-- A verification library for Entrance, a display manager: the daemon shows a greeter on each seat,
-- authenticates users through PAM and starts their sessions.
--
-- The parts, and the files that model them (C paths are from the repository's root):
--   Common       C strings, arrays of pointers, and steps on a state with their proof rules
--   Pam          src/daemon/entrance_pam.c: one PAM transaction for each seat
--   Image        src/daemon/entrance_image.c: the pools of icons and backgrounds
--   History      src/daemon/entrance_history.c: the remembered sessions and the list of users; Conf has
--                the cache file and users.conf
--   Session      src/daemon/entrance_session.c, entrance_session_utils.c: Defs has a seat's session,
--                Desktops the desktop sessions, Command the command of a login, Run its process,
--                Xauth the name of its X authority file
--   Action       src/daemon/entrance_action.c: shutdown, reboot and suspend
--   Server       src/daemon/entrance_server.c and entrance_session_login: Defs has the state of the
--                daemon with all its parts, Login the handlers of a client's connection and events,
--                Socket the socket and its owner
--   Client       src/daemon/entrance.c: the start of a seat's client, what the daemon does
--                when it ends, and the signals that end the daemon
--   Daemon       src/daemon/entrance.c: the user of the greeters and the lock of automatic login; Main has
--                the order of main, from the options to the exit status, Log what is logged of a client;
--                Greeters joins the user with the greeter's program
--   Logind       src/daemon/entrance_logind.c: the seats, and the monitor of their changes
--   Xserver      src/daemon/entrance_xserver.c: the X server of each seat
--   Startup      src/daemon/entrance.c: the start and the end of all seats
--   Config       src/daemon/entrance_config.c: the configuration and its cache; Fields the fields' types
--   Lock         src/daemon/entrance.c: the lock file of the daemon
--   Keyboard     src/daemon/entrance_keyboard.c: the lock keys; Masks which indicator gives a lock its mask
--   Event        src/event/entrance_event.c: the names and the data descriptors of the events; Fields the
--                structures of entrance_event.h
--   Greeter      src/bin, the program that shows a seat's login form: Defs has its state, Login the form
--                (entrance_login.c), Gui the window (entrance_gui.c), Connect the daemon's events
--                (entrance_connect.c) and the greeter as a machine; Main the main program
--                (entrance_client.c) with the connection's start and end; Fill the lists
--                (entrance_fill.c); Theme and Screens the theme's files and the screens
--                (entrance_gui.c); Words a loop over a buffer; System what entrance_system.c finds out;
--                Requests, Sessions, Images and Strings have the proofs, and Quiet what leaves
--                the requests alone
--   Examples     runs on a concrete system
--
-- How they interact: a client's event reaches entrance_server_read_cb, which calls
-- entrance_session_authenticate (which calls the PAM module), then entrance_session_login (which asks
-- PAM for the user's name, the history to remember the session, the desktop sessions for a command,
-- and forks). The greeter's check of its form sends such an event, by auth_send, and waits for the
-- daemon's answer, which connect_read_cb hands to the form's callback login_auth_cb. The daemon's main
-- takes the lock, opens the log, chooses the user of the greeters and starts the seats; the greeter's main
-- gets that user's ids and gives root's up. Both are modelled by the list of the calls that they
-- make, and the system says which of the daemon's calls come back; the greeter's main loop runs the
-- callbacks of Connect. A step of a part runs on the daemon's state by with_pam, with_seats and with_history.
-- Functions have the names of the C functions without a leading underscore; the helpers beside them
-- are the parts of a body behind a test. In Client, Keyboard, Greeter and Xserver a static function
-- has no entrance_ in front; Startup says seats where both files have an xserver function.
--
-- Conventions. A step takes a state to a result and a new state; none is a fault, such as a
-- dereference of NULL or of freed memory. An array of pointers is a list of slots, each NULL, live, or
-- freed with its address kept; the history's lists hold indices into a store of structures, since its
-- two lists share structures. An int that is 0 for success is a Bool that is false for success. C
-- strings are lists of bytes; snprintf into a buffer of n bytes keeps n - 1 of them. A loop of the C
-- code walks a list, or counts the seats or the indices that are left; the waits walk a list of what
-- the daemon sees at each turn. Only the digits of a number n are written on fuel, n + 1, which
-- exceeds their number, and the loop over a buffer in Words has a bound of rounds, which the length of the
-- string and one is shown to be enough for.
--
-- Parameters: the PAM library, which answers each call from all that was asked before; the requests of
-- the system (fork, setuid and the others), Ecore's and Efreet's functions, the password database,
-- strdup and the random device; rand of the greeter; what Eet makes of a text; the answers of XCB; and
-- what fgets, atoi, sscanf and strtok_r find where a file or an argument is read. The insertion into a
-- sorted list is a parameter, of which one result assumes that it adds the entry and reorders at most.
--
-- Not modelled: most log lines and failing allocations other than strdup's; encoding and decoding by Eet;
-- conversations of PAM's other calls than the authentication's and the account's; the wait for an X server
-- that is killed at the end; the writes of the environment, whose texts are; the signals and the environment of an X server's process
-- (src/daemon/entrance_xserver.c); the build without PAM; and of the greeter (src/bin) the creation of its
-- widgets, which is calls of the EFL library, with the date, the clock and the machine's name that they
-- show. Of several screens of a greeter the model has one, but for Screens, which has all of them.
pub mod Common
pub mod Pam
pub mod Image
pub mod History
pub mod Session
pub mod Action
pub mod Server
pub mod Client
pub mod Daemon
pub mod Event
pub mod Greeter
pub mod Lock
pub mod Logind
pub mod Startup
pub mod Config
pub mod Xserver
pub mod Keyboard
pub mod Examples
