-- ===== src/Account.antt =====
-- The account service (src/account). `Tables` is the database, `Store` its operations.
pub mod Tables
pub mod Store
pub mod Invariant
pub mod Tickets
pub mod Spent
pub mod Admin
pub mod Sessions
pub mod Revocation
pub mod RateLimit
pub mod Api
pub mod Audit
pub mod Wol
