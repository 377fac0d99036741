-- ===== src/Client.antt =====
-- A client: src-cpp/client/client.h and client.cc. One request after the other goes to the head or the
-- tail of its bank, and again when no reply comes in time.
pub mod State
pub mod Run
pub mod Retries
pub mod Outcomes
