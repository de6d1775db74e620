-- ===== src/Commands.antt =====
-- src/commands: the handlers. Each takes the time, the selected database and the arguments, the
-- command's name among them, and returns the new database and the reply.
pub mod Args
pub mod Strings
pub mod Keys
pub mod Lists
pub mod Sets
pub mod Bits
pub mod Hashes
