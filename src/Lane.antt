-- ===== src/Lane.antt =====
-- blockbuster/lane_interface.go, types.go, lane_constructor.go and lane_abci.go: a lane, what it is made
-- of, and the calls that do not depend on a chain of lanes. A closure over a lane (a Go pointer) takes
-- the lane's present state, a `LaneConstructor`, as its first argument. Logging is left out.
mod Defs
pub mod Handlers
pub mod Order
pub mod Construct
pub mod Valid
pub mod Select
pub mod Reap
pub mod Verify
pub use Defs.{Env, MatchHandler, AnteHandler, LaneMempool, LaneConfig, LaneConstructor}
pub use Defs.{
  PrepareLaneHandler, ProcessLaneHandler, CheckOrderHandler, Lane, ChainLane, lane, terminator,
}
unfoldable pub use Defs.{match, check_ignore_list, ante_verify_tx, remove_txs_from_lane}
