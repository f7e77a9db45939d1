-- ===== src/Shell.antt =====
-- busybox/shell and include/shell.h: the command shell.
pub mod Text
pub mod Line
pub mod State
pub mod Frame
pub mod Env
pub mod Echo
pub mod Builtins
pub mod Tee
pub mod Main
mod Sample
mod LineTests
mod SessionTests
mod Tests
