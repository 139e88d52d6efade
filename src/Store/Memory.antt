-- ===== src/Store/Memory.antt =====
-- server/internal/store/memory: the in-memory stores. A method locks, so that it runs alone; here it
-- is one function from the state to the new state and the result.
pub mod Users
pub mod Groups
pub mod Flows
pub mod Sessions
pub mod Admins
pub mod Ring
pub mod Laws
pub mod Crud
pub mod RingList
pub mod RingHistory
pub mod Redeem
pub mod Tokens
pub mod Expiry
