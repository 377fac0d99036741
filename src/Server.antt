-- ===== src/Server.antt =====
-- A chain server: src-cpp/server/server.{h,cc}, src-cpp/common/{bank,account}.h. Each child has the
-- definitions of a part of the class `ChainServer`; the children of those have the proofs.
pub mod State
pub mod Accounts
pub mod History
pub mod Send
pub mod Update
pub mod Reconfigure
pub mod Extend
pub mod Link
pub mod Dispatch
pub mod Validity
