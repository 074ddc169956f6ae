-- ===== src/Auction.antt =====
-- blockbuster/lanes/auction: the top-of-block lane.
mod Bids
mod Handlers
pub mod Order
pub mod Verify
pub mod Choose
pub mod Rounds
pub mod Prepared
mod CheckTx
pub mod Admissible
pub mod Admission
pub mod Committed
pub mod Outbid
pub use Bids.{Factory, is_bid}
unfoldable pub use Bids.{
  get_auction_bid_info, get_msg_auction_bid_from_tx, auction_bid_msgs, only_bid,
}
unfoldable pub use Bids.{bid_info_of, get_bundle_signers, signer_set, default_auction_factory}
unfoldable pub use Handlers.{any_match, check_bundle, check_bid_order, check_order_handler}
unfoldable pub use Handlers.{
  prepare_lane_handler, bid_loop, bid_round, encoded_bid, verified_bid, bundle_bytes,
}
unfoldable pub use Handlers.{
  verify_tx, verify_bundle, process_lane_handler, process_bid, slice_from,
}
pub use CheckTx.{CheckTxType, RequestCheckTx, ResponseCheckTx, Answer, BaseApp, GasInfo}
unfoldable pub use CheckTx.{
  validate_bundled, validate_loop, validate_bid_tx, is_no_bid, get_context_for_bid_tx, insert_bid,
}
unfoldable pub use CheckTx.{check_bid, check_other, check_decoded, check_tx_handler}
