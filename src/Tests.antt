-- ===== src/Tests.antt =====
-- The theorems at concrete inputs, and the fixtures for them.
pub mod Agents
pub mod Answers
pub mod Calls
pub mod Dialogs
pub mod Endpoints
pub mod Engines
pub mod Fixtures
pub mod Flows
pub mod Media
pub mod Offers
pub mod Pings
pub mod Servers
pub mod Sessions
pub mod Streams
pub mod Transactions
