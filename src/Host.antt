-- ===== src/Host.antt =====
-- The environment of a call and the state that it works on. The host, the token contracts and the
-- price oracle are not part of the repository: what the contract uses of them are parameters.
pub mod State
pub mod Calls
pub mod Outcomes
