-- ===== src/Auction/Bids.antt =====
-- blockbuster/lanes/auction/factory.go and utils.go: which transactions are bids, and what a bid says.
use pob.Prelude.{
  Bool, true, false, String, Option, none, some, List, [], ◌∷◌, length, ◌==◌, if◌then◌else◌,
}
use pob.Prelude.Outcome.{
  Outcome, ok, err, panic, ◌>>=◌, wrapped, bad_auction_msg, no_timeout, not_verifiable,
}
use pob.Sdk.{
  Sdk, Bytes, Tx, Msg, MsgAuctionBid, auction_bid, delegate, begin_redelegate, cancel_unbonding,
  other,
}
use pob.Proposal.{add_key}
use pob.Lane.{MatchHandler}
use pob.Builder.{BidInfo}

-- The interface Factory. A nil *BidInfo is `none`.
pub record Factory (sdk : Sdk) : Type 0 where
  pub wrap_bundle_transaction : Bytes → Outcome Tx
  pub get_auction_bid_info : Tx → Outcome (Option BidInfo)
  pub match_handler : MatchHandler sdk

-- The loop of GetMsgAuctionBidFromTx.
unfoldable pub auction_bid_msgs : List Msg → List MsgAuctionBid
auction_bid_msgs [] = []
auction_bid_msgs (auction_bid m ∷ msgs) = m ∷ auction_bid_msgs msgs
auction_bid_msgs (delegate ∷ msgs) = auction_bid_msgs msgs
auction_bid_msgs (begin_redelegate ∷ msgs) = auction_bid_msgs msgs
auction_bid_msgs (cancel_unbonding ∷ msgs) = auction_bid_msgs msgs
auction_bid_msgs (other ∷ msgs) = auction_bid_msgs msgs

-- Its switch, by the bids and all messages.
unfoldable pub only_bid : List MsgAuctionBid → List Msg → Outcome (Option MsgAuctionBid)
only_bid [] msgs = ok none
only_bid (m ∷ []) msgs = if length msgs == 1 then ok (some m) else err bad_auction_msg
only_bid (m ∷ k ∷ bids) msgs = err bad_auction_msg

-- GetMsgAuctionBidFromTx
unfoldable pub get_msg_auction_bid_from_tx : Tx → Outcome (Option MsgAuctionBid)
get_msg_auction_bid_from_tx tx = only_bid (auction_bid_msgs tx.msgs) tx.msgs

-- `v, ok := x; if !ok { return err }`
abbrev pub require {ℓ} : {A : Type ℓ} → Option A → Outcome A → Outcome A
require (some a) missing = ok a
require none missing = missing

module _ (sdk : Sdk) where
  -- The set of the signers of one transaction, by their addresses as text.
  unfoldable pub signer_set : List Bytes → List String → List String
  signer_set [] names = names
  signer_set (signer ∷ signers) names = signer_set signers (add_key (sdk.acc_string signer) names)

  -- getBundleSigners
  unfoldable pub get_bundle_signers : List Bytes → Outcome (List (List String))
  get_bundle_signers [] = ok []
  get_bundle_signers (bz ∷ bundle) = do
    tx ← sdk.decode bz
    answer ← require tx.signers (err not_verifiable)
    signers ← answer
    rest ← get_bundle_signers bundle
    ok (signer_set signers [] ∷ rest)

  -- GetAuctionBidInfo, once the message is known.
  unfoldable pub bid_info_of : Tx → Option MsgAuctionBid → Outcome (Option BidInfo)
  bid_info_of tx none = ok none
  bid_info_of tx (some msg) = do
    bidder ← wrapped (sdk.acc_from_bech32 msg.bidder)
    timeout ← require tx.timeout_height (err no_timeout)
    signers ← get_bundle_signers msg.transactions
    ok (
        some (record {
          bidder = bidder;
          bid = msg.bid;
          transactions = msg.transactions;
          timeout = timeout;
          signers = signers;
        }))

  -- DefaultAuctionFactory.GetAuctionBidInfo
  unfoldable pub get_auction_bid_info : Tx → Outcome (Option BidInfo)
  get_auction_bid_info tx = do msg ← get_msg_auction_bid_from_tx tx; bid_info_of tx msg

  -- `bidInfo != nil && err == nil`. A panic of the decoder counts as no match.
  abbrev pub is_bid : Outcome (Option BidInfo) → Bool
  is_bid (ok (some info)) = true
  is_bid (ok none) = false
  is_bid (err e) = false
  is_bid panic = false

  -- DefaultAuctionFactory
  unfoldable pub default_auction_factory : Factory sdk
  default_auction_factory = record {
    wrap_bundle_transaction = sdk.decode;
    get_auction_bid_info = get_auction_bid_info;
    match_handler = λ ctx tx. is_bid (get_auction_bid_info tx);
  }
