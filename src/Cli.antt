-- ===== src/Cli.antt =====
-- The command line (directory cli): the options that all commands share, cli/root.go, and in the
-- modules below the quoting of a command (cli/login.go), the credentials (cli/keyring.go), the lock
-- (cli/lock.go) and the commands themselves.
--
-- Texts are lists of code points here. Flags are parsed by the library cobra, so a command starts
-- from the values of its flags.
mod Root
pub mod Quote
pub mod Keyring
pub mod Lock
pub mod Commands
unfoldable pub use Root.*
