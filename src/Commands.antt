-- ===== src/Commands.antt =====
-- The command handlers of internal/modules, over the operations that `HandlerFuncParams` gives them.
pub mod Exec
pub mod Numbers
pub mod Times
pub mod Laws
pub mod Steady
pub mod Lists
pub mod Sets
pub mod Hashes
pub mod Strings
pub mod Generic
