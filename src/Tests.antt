-- ===== src/Tests.antt =====
-- The theorems applied at concrete inputs, and runs of the model.
mod Fixture
mod Deps
pub mod Blocks
pub mod Auction
pub mod Registry
pub mod TopOfBlock
pub mod Decorators
pub mod Checking
pub mod Orders
mod SkipLists
mod Indices
pub mod Outbidding
pub mod Selections
pub mod Contents
pub mod Construction
pub mod Starting
pub mod Lanes
