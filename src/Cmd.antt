-- ===== src/Cmd.antt =====
-- cmd/keys.go: the commands that generate, add and delete the keys of an account.
pub mod Disk
pub mod KeyPairs
pub mod Keys
