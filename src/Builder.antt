-- ===== src/Builder.antt =====
-- The module x/builder: its state and messages, the keeper's validation of bids and bundles, the message
-- server, and the rewards providers.
mod Types
mod Keeper
mod Server
pub mod Genesis
pub mod Defaults
pub mod Ante
pub mod Modes
pub mod Getters
pub mod Shares
pub mod Bundle
pub mod Bid
pub mod Payment
pub mod Authority
pub mod Checks
pub use Types.{BidInfo, Params, MsgUpdateParams, IsStorable, BuilderDeps}
unfoldable pub use Types.{validate_params, validate_fee, validate_proposer_fee}
unfoldable pub use Types.{
  update_params_validate_basic, auction_bid_validate_basic, check_transactions,
}
unfoldable pub use Keeper.{
  get_params, set_params, validate_bid_info, validate_auction_bid, validate_auction_bundle,
}
unfoldable pub use Keeper.{filter_signers, bundle_loop, validate_min_bid, validate_bundle_size}
unfoldable pub use Server.{
  auction_bid, check_bid_msg, update_params, pay_bid, pay_with_reward, init_genesis, export_genesis,
}
unfoldable pub use Server.{fixed_rewards_address, proposer_rewards_address}
