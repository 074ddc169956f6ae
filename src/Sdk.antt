-- ===== src/Sdk.antt =====
-- What the repository takes from cosmos-sdk, cometbft and Go: the data that its code reads, as
-- records, and the operations that it calls, as fields of the interface `Sdk`. The libraries' code is not
-- in the repository, so each field is a parameter; the laws beside the operations are their documentation.
mod Decimal
mod Coins
mod Contexts
pub mod Skip
use pob.Prelude.{ℕ, Bool, Option, String, List}
use pob.Prelude.Outcome.{Outcome}
pub use Contexts.{ContextOps}
pub use Skip.{SkipListOps}
pub use Decimal.{Decimals, precision}
pub use Coins.{Coin, CoinOps, DecCoinOps, coin, coins_of}

abbrev pub Bytes : Type 0
Bytes = List ℕ

-- MsgAuctionBid of proto/pob/builder/v1/tx.proto.
pub record MsgAuctionBid : Type 0 where
  pub bidder : String
  pub bid : Coin
  pub transactions : List Bytes

-- The messages that the code tells apart.
pub data Msg : Type 0 where
  auction_bid : MsgAuctionBid → Msg
  delegate begin_redelegate cancel_unbonding other : Msg

-- A signature of `GetSignaturesV2`: the address of its key, and its sequence number.
pub record Signature : Type 0 where
  pub address : Bytes
  pub sequence : ℕ

-- sdk.Tx, by what its interfaces return: GetMsgs, GetTimeoutHeight (`none` where the transaction has no
-- timeout interface), GetSigners (`none` where it is no SigVerifiableTx), GetSignaturesV2, and the
-- text of GetFee (`none` where it is no FeeTx). `rest` is all else, which only a codec sees.
pub record Tx : Type 0 where
  pub msgs : List Msg
  pub timeout_height : Option ℕ
  pub signers : Option (Outcome (List Bytes))
  pub signatures : Outcome (List Signature)
  pub fee : Option String
  pub rest : Bytes

-- sdk.Context: its values, and the store that it refers to. A context is passed by value and its
-- store by reference, so a call hands both back, and its caller keeps what Go would let it see.
pub record Context (Ctx Store : Type 0) : Type 0 where
  pub values : Ctx
  pub store : Store

pub record Sdk : Type 1 where
  pub Ctx : Type 0
  pub Store : Type 0
  pub decimals : Decimals
  pub coins : CoinOps
  pub dec_coins : DecCoinOps decimals coins
  -- sdk.TxEncoder, sdk.TxDecoder
  pub encode : Tx → Outcome Bytes
  pub decode : Bytes → Outcome Tx
  -- hex(sha256(bytes))
  pub hash : Bytes → String
  -- sdk.AccAddressFromBech32, AccAddress.String
  pub acc_from_bech32 : String → Outcome Bytes
  pub acc_string : Bytes → String
