-- ===== src/Abci.antt =====
-- blockbuster/abci/abci.go with PrepareLane and ProcessLane of blockbuster/lane_abci.go, and the
-- Terminator. A panic is caught where the code has a deferred `recover`; what was written before it, to the
-- proposal or to a mempool, stays written.
mod Prepare
mod Process
pub mod Chain
pub mod Respects
pub mod Proposals
pub mod Skip
pub mod Accepts
pub use Prepare.{Prepared, PrepareNext}
unfoldable pub use Prepare.{
  close_chain, prepare_lane, propose, prepare_element, recover_lane, finish_lane, prepare_chain,
}
unfoldable pub use Prepare.{chain_prepare_lanes, prepare_response, prepare_proposal}
unfoldable pub use Process.{
  process_lane, process_chain, chain_process_lanes, get_decoded_txs, process_proposal,
}
pub use Process.{Status, accept, reject}
