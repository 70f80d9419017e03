-- ===== src/Consistency.antt =====
-- The tables agree with each other in every state that the chain reaches.
pub mod Replay
pub mod History
pub mod Deadline
pub mod Account
pub mod Updates
pub mod Tables
pub mod Supply
pub mod Transit
pub mod Messages
pub mod Create
pub mod Sent
pub mod Payment
pub mod Settle
pub mod Accept
pub mod Refund
pub mod Expiry
pub mod Transfer
pub mod Paid
pub mod Spending
pub mod Settlement
pub mod Conservation
pub mod Outcome
pub mod Commit
pub mod Chain
pub mod Refunded
pub mod Repaid
pub mod Money
pub mod Debugger
pub mod Notified
pub mod Growth
pub mod Authority
pub mod Handlers
pub mod Settled
