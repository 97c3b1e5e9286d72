-- ===== src/Cli.antt =====
-- src/battery-pack/bphelper-cli/src: the parts of the command line that decide what happens to a
-- user's project.
pub mod Toml
pub mod Deps
pub mod Merge
pub mod Names
pub mod State
pub mod Tui
pub mod Add
