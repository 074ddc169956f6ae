-- ===== src/Lanes/Priority.antt =====
-- DefaultTxPriority of blockbuster/lane_mempool.go and TxPriority of blockbuster/lanes/auction/mempool.go: transactions are
-- ordered by the text of their fee, or of their bid.
use pob.Prelude.{◌≡◌, Bool, true, false, String, Option, none, some, if◌then◌else◌}
use pob.Prelude.Int.{ℤ, pos, negsuc}
use pob.Prelude.Outcome.{Outcome, ok, err, panic}
use pob.Sdk.{Sdk, Coin}
use pob.Builder.{BidInfo}
use pob.Auction.{Factory}
use pob.PriorityNonce.{TxPriority}

-- What sdk.Coins documents: ParseCoinsNormalized, whose error the code leaves unread and whose nil is `none`; Coin.String;
-- and IsAllGT, which says that each amount of the second is less, and IsAllLT, which is IsAllGT the other way round.
pub record CoinTexts : Type 1 where
  pub Coins : Type 0
  pub parse_coins_normalized : String → Option Coins
  pub coin_text : Coin → String
  pub is_all_gt : Coins → Coins → Bool
  pub is_all_lt : Coins → Coins → Bool
  pub is_all_lt_lem : (a b : Coins) → is_all_lt a b ≡ is_all_gt b a
  pub is_all_gt-asym : (a b : Coins) → is_all_gt a b ≡ true → is_all_gt b a ≡ false

module _ (texts : CoinTexts) where
  abbrev pub compare_coins : texts.Coins → texts.Coins → ℤ
  compare_coins a b =
      if texts.is_all_gt a b then pos 1 else if texts.is_all_lt a b then negsuc 0 else pos 0

  -- The switch of Compare, on what was parsed.
  unfoldable pub compare_parsed : Option texts.Coins → Option texts.Coins → ℤ
  compare_parsed none none = pos 0
  compare_parsed none (some b) = negsuc 0
  compare_parsed (some a) none = pos 1
  compare_parsed (some a) (some b) = compare_coins a b

  -- Compare
  unfoldable pub compare_texts : String → String → ℤ
  compare_texts a b =
      compare_parsed (texts.parse_coins_normalized a) (texts.parse_coins_normalized b)

  -- The fee, the empty text where the transaction has none.
  abbrev pub fee_of : Option String → String
  fee_of (some fee) = fee
  fee_of none = ""

  -- DefaultTxPriority
  unfoldable pub default_tx_priority : (sdk : Sdk) → TxPriority sdk String
  default_tx_priority sdk = record {
    get_tx_priority = λ ctx tx. ok (fee_of tx.fee);
    compare = compare_texts;
    min_value = "";
  }

  -- GetTxPriority of the auction: an error panics, and so does the Bid of a nil BidInfo.
  unfoldable pub bid_text : Outcome (Option BidInfo) → Outcome String
  bid_text (ok (some info)) = ok (texts.coin_text info.bid)
  bid_text (ok none) = panic
  bid_text (err e) = panic
  bid_text panic = panic

  -- TxPriority of the auction
  unfoldable pub tx_priority : (sdk : Sdk) → Factory sdk → TxPriority sdk String
  tx_priority sdk factory = record {
    get_tx_priority = λ ctx tx. bid_text (factory.get_auction_bid_info tx);
    compare = compare_texts;
    min_value = "";
  }
