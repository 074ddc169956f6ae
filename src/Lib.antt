-- ===== src/Lib.antt =====
-- A model of POB, the protocol-owned builder of x/builder and the Blockbuster lanes of
-- blockbuster/, with proofs.
--
-- A proposer calls PrepareProposal. Each lane of the chain gets a limit on its bytes, reaps
-- transactions of its mempool, and hands the proposal to the next lane; a lane that fails or
-- panics is skipped. A validator calls ProcessProposal, which hands the decoded transactions from
-- lane to lane, each of which checks the order of its own and verifies them. Bids of the
-- top-of-block auction are validated by the keeper of x/builder, and paid by its message server.
--
-- The files:
-- - Prelude.antt and Prelude/: the libraries' names, Boolean tests, lists, the integers with the
--   int64 arithmetic of Go, and Outcome, the three ways in which a Go call ends: a value, an
--   error, or a panic.
-- - Sdk.antt and Sdk/: what the code takes from cosmos-sdk, cometbft and Go, as the fields of the
--   interface Sdk; ContextOps has the methods of sdk.Context, and SkipListOps those of a skip
--   list. None of this code is in the repository. The fields of Decimals, CoinOps, DecCoinOps,
--   ContextOps and SkipListOps have laws, which state what cosmossdk.io/math, the coins and the
--   contexts of cosmos-sdk and github.com/huandu/skiplist document.
-- - Proposal.antt: blockbuster/proposals.go (NewProposal, UpdateProposal, Contains, GetProposal,
--   AddVoteExtension) and GetMaxTxBytesForLane of blockbuster/utils/utils.go. Proposal/Arith.antt
--   has the sizes, Proposal/Invariant.antt the well-formedness, Proposal/Update.antt what
--   UpdateProposal does.
-- - Lane.antt, Lane/Defs.antt, Lane/Handlers.antt: LaneConstructor of
--   blockbuster/lane_constructor.go, AnteVerifyTx of blockbuster/lane_abci.go, RemoveTxsFromLane
--   of blockbuster/utils/utils.go, and the default handlers of blockbuster/lane_handlers.go.
--   Lane/Order.antt is about the check of the order, Lane/Select.antt and Lane/Reap.antt about the
--   reaping of a mempool, Lane/Verify.antt about the verification. Lane/Construct.antt has the
--   constructor of a lane with the checks of blockbuster/types.go, the setters, and the matcher of
--   blockbuster/lanes/free/lane.go; Lane/Valid.antt is about the constructor.
-- - PriorityNonce.antt and PriorityNonce/Defs.antt: the priority nonce mempool of
--   blockbuster/priority_nonce.go (Insert, Remove, CountTx, NextSenderTx, IsEmpty), with
--   PriorityNonce/Iterate.antt for its iterator, PriorityNonce/Ties.antt for Select and the
--   reordering of ties, and PriorityNonce/Cached.antt for ConstructorMempool of
--   blockbuster/lane_mempool.go. PriorityNonce/Capacity.antt is about the number of transactions,
--   PriorityNonce/Put.antt and PriorityNonce/Removal.antt about Insert and Remove,
--   PriorityNonce/Drained.antt, PriorityNonce/Ends.antt and PriorityNonce/Selected.antt about the
--   end of an iteration, PriorityNonce/Membership.antt about Contains.
--   PriorityNonce/Ascending.antt, PriorityNonce/Distinct.antt and PriorityNonce/Comparing.antt are
--   about one index, PriorityNonce/Consistent.antt has the invariant of all indices, which
--   PriorityNonce/Opened.antt and PriorityNonce/Kept.antt follow through Insert,
--   PriorityNonce/Taken.antt through Remove and PriorityNonce/Reordered.antt through Select;
--   PriorityNonce/Refined.antt and PriorityNonce/Removed.antt are about the operations by sender
--   and nonce, PriorityNonce/Handed.antt, PriorityNonce/Ready.antt and
--   PriorityNonce/Reachable.antt about the mempools that are reached and what Select hands out of
--   them. PriorityNonce/Indexed.antt and PriorityNonce/Filed.antt are about the senders' indices,
--   whatever the comparison of priorities is, and PriorityNonce/Orders.antt about the comparisons
--   that are orders. The skip list is the parameter SkipListOps of Sdk/Skip.antt: it searches by
--   its comparison, and where an element is put or found is a law for comparisons that are orders
--   only. That of nonces always is one. Compare of DefaultTxPriority and of TxPriority of
--   lanes/auction is one on amounts of one denomination, but not on mixed ones, so that statements
--   on the consistency of all indices have the hypothesis that priorities are ordered; those on
--   what Select hands out have not.
-- - Lanes.antt and Lanes/: the particular lanes. Lanes/Priority.antt has DefaultTxPriority of
--   blockbuster/lane_mempool.go and TxPriority of blockbuster/lanes/auction/mempool.go,
--   Lanes/Pool.antt ConstructorMempool as the mempool of a lane and GetTopAuctionTx,
--   Lanes/Build.antt NewDefaultLane, NewFreeLane and NewTOBLane of blockbuster/lanes and
--   NewBaseLaneConfig of blockbuster/types.go, Lanes/Terminator.antt
--   blockbuster/lanes/terminator/lane.go and the handlers for tests of blockbuster/types.go.
--   Lanes/Texts.antt is about the comparison of priorities, Lanes/Held.antt and Lanes/Tops.antt
--   about the mempools of these lanes and GetTopAuctionTx, Lanes/Made.antt about NewTOBLane. The
--   parsing, printing and comparison of sdk.Coins is the parameter CoinTexts.
-- - Abci.antt, Abci/Prepare.antt, Abci/Process.antt: PrepareLane and ProcessLane of
--   blockbuster/lane_abci.go, ChainPrepareLanes, ChainProcessLanes and the two handlers of
--   blockbuster/abci/abci.go, and GetDecodedTxs of blockbuster/utils/utils.go. Abci/Chain.antt is
--   about closed chains, Abci/Respects.antt and Abci/Proposals.antt about what a chain does to a
--   proposal whose lanes' handlers only read it, Abci/Skip.antt about the skipping of a lane,
--   Abci/Accepts.antt about the proposals that are accepted.
-- - Mempool.antt: BBMempool of blockbuster/mempool.go, as the list of its lanes.
--   Mempool/Exclusive.antt is about the ignore lists that the mutex sets, Mempool/Shares.antt
--   about the lanes' shares of the block.
-- - Builder.antt and Builder/Types.antt: the data of x/builder/types (bid_info.go, params.go,
--   msgs.go). Builder/Keeper.antt: GetParams and SetParams of x/builder/keeper/keeper.go and all
--   of x/builder/keeper/auction.go; Builder/Getters.antt: the getters of
--   x/builder/keeper/keeper.go for one parameter each and x/builder/keeper/grpc_query.go.
--   Builder/Server.antt: x/builder/keeper/msg_server.go, x/builder/keeper/genesis.go and
--   x/builder/rewards. Builder/Shares.antt and Builder/Bundle.antt are about bundles,
--   Builder/Bid.antt about bids, Builder/Payment.antt about payments, Builder/Checks.antt about
--   the validation of the parameters, Builder/Authority.antt about their update.
--   Builder/Genesis.antt: the defaults and the genesis of x/builder/types, NewKeeper of
--   x/builder/keeper/keeper.go, the signers of x/builder/types/msgs.go, and the genesis and
--   ProvideModule of x/builder/module.go; Builder/Defaults.antt is about them.
-- - Auction.antt, Auction/Bids.antt, Auction/Handlers.antt and Auction/CheckTx.antt: the
--   top-of-block lane of blockbuster/lanes/auction (factory.go, utils.go, abci.go, check_tx.go).
--   Auction/Order.antt is about the order of a proposal, Auction/Verify.antt about the
--   verification of a bundle, Auction/Choose.antt, Auction/Rounds.antt and Auction/Prepared.antt
--   about the bid that a proposer chooses, Auction/Admissible.antt, Auction/Admission.antt and
--   Auction/Committed.antt about CheckTx, and Auction/Outbid.antt about CheckTx with
--   BuilderDecorator as its ante handler.
-- - Builder/Ante.antt: BuilderDecorator of x/builder/ante/ante.go and IgnoreDecorator of
--   blockbuster/utils/ante.go; Builder/Modes.antt is about the former in its modes.
-- - Tests.antt and Tests/: a concrete Sdk, concrete dependencies of the keeper, the theorems at
--   concrete inputs, and runs.
--
-- How state is modelled. A context is passed by value and its store by reference: Context has the
-- values and the store, a call returns both, and its caller keeps what Go lets it see. A cached
-- context is the store before it, which is kept when the lane fails. A proposal is a pointer in Go
-- that the lanes change in place, so a failed lane returns the proposal as it stands. Each lane's
-- mempool is a state of any type Pool, which the operations of LaneMempool change. A Go map that
-- serves as a set is a list of its keys without order; only membership is read. Other maps are
-- lists of entries (Prelude/Maps.antt). For a lane, an iterator over its mempool is the list of
-- what it hands out; the iterator itself is in PriorityNonce/Iterate.antt, where a pointer to an
-- element of a skip list is the list of the elements from it on.
--
-- Bounds. Sizes are int64 with the wrap-around of Go written out; the theorems on sizes assume
-- limits and lists below 2^62, under which no sum wraps. Bundle sizes are taken modulo 2^32, as
-- the code converts them to uint32. Loops are structural recursion on lists and chains; no
-- function has fuel but drain, which goes through the iterator of a mempool, and for which the
-- elements ahead of the iterator are enough. The list that a lane's mempool selects is empty where
-- the iterator panics, which it does in no mempool that is reached.
--
-- What is not modelled: logging, and the text of errors; the events that AuctionBid emits;
-- generated code, codecs, the registration of the module with the framework and its command line,
-- which only hand data to a library; a prepare handler that itself changes the proposal it is
-- given (none of the repository does); an ante handler that changes the mempool while CheckTx
-- runs, as BuilderDecorator does where its GetTopAuctionTx reorders ties; and the caching of the
-- committed store in CheckTx: what an ante handler writes there is dropped at its end, so that the
-- application's state is unchanged by construction.
pub mod Prelude
pub mod Sdk
pub mod Proposal
pub mod Lane
pub mod PriorityNonce
pub mod Abci
pub mod Mempool
pub mod Builder
pub mod Auction
pub mod Lanes
pub mod Tests
