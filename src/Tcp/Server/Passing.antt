-- ===== src/Tcp/Server/Passing.antt =====
-- What the callbacks of a server do to the bytes that wait for one client, for any server whose
-- virtual members are known to put off calls of `Send()`.
pub mod Passes
pub mod Kept
pub mod Calls
pub mod Deliver
pub mod Account
pub mod Members
pub mod Step
pub mod Balances
