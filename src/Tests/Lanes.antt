-- ===== src/Tests/Lanes.antt =====
-- The particular lanes and their mempools at concrete inputs: two bids, by different senders.
use pob.Prelude.{
  ℕ, ◌≡◌, ◌↔◌, refl, arith, true, false, ltb, ◌==◌, String, Option, none, some, [], ◌∷◌,
  if◌then◌else◌, str_eq, eq_iff,
}
use pob.Prelude.Int.{ℤ, pos, negsuc}
use pob.Prelude.Outcome.{ok}
use pob.Sdk.{Bytes, Tx, coin, auction_bid, SkipListOps}
use pob.Lane.Valid.{IsConfigured}
use pob.Auction.{Factory, default_auction_factory}
use pob.PriorityNonce.{Comparables, PriorityNonceMempoolConfig, nonce_compare, skiplist_comparable}
use pob.PriorityNonce.Cached.{insert_cached, new_constructor_mempool}
use pob.Lanes.Priority.{CoinTexts, tx_priority}
use pob.Lanes.Pool.{Pool, config_of}
use pob.Lanes.Build.{Given, new_tob_lane}
use pob.Lanes.Made.{new_tob_lane_iff, tob_lane, unchecked}
use pob.Tests.Fixture.{simple_sdk, plain_tx}
use pob.Tests.Blocks.{ctx}
use pob.Tests.Orders.{
  compare_ℕ, compare_text, compare_ℕ_iff, compare_text_iff, compare_text-IsOrder, compare_ℕ-lt,
  compare_ℕ-gt,
}
use pob.Tests.SkipLists.{list_ops}

abbrev textual : Comparables String
textual = record {
  same = str_eq;
  zero = "";
  compare_string = compare_text;
  compare_uint64 = compare_ℕ;
  same_iff = eq_iff;
  compare_string_iff = compare_text_iff;
  compare_string-IsOrder = compare_text-IsOrder;
  compare_uint64_iff = compare_ℕ_iff;
  compare_uint64_lt = compare_ℕ-lt;
  compare_uint64_gt = compare_ℕ-gt;
}

ltb_asym : (a b : ℕ) → ltb b a ≡ true → ltb a b ≡ false
ltb_asym a b h = ground (arith, h)

abbrev parse : String → Option ℕ
parse s = if str_eq s "5stake" then some 5 else if str_eq s "7stake" then some 7 else none

abbrev write : Option ℤ → String
write (some (pos n)) = if n == 5 then "5stake" else if n == 7 then "7stake" else ""
write (some (negsuc n)) = ""
write none = ""

abbrev texts : CoinTexts
texts = record {
  Coins = ℕ;
  parse_coins_normalized = parse;
  coin_text = λ c. write c.amount;
  is_all_gt = λ a b. ltb b a;
  is_all_lt = λ a b. ltb a b;
  is_all_lt_lem = λ a b. refl;
  is_all_gt-asym = ltb_asym;
}

abbrev lists :
    (compare : String → String → ℤ) → SkipListOps Tx (skiplist_comparable compare textual)
lists compare = list_ops (skiplist_comparable compare textual)

abbrev by_nonce : SkipListOps Tx (nonce_compare textual)
by_nonce = list_ops (nonce_compare textual)

abbrev bid_tx : Bytes → ℤ → Tx
bid_tx address amount = record (plain_tx address) {
  msgs =
      auction_bid (record { bidder = "alice"; bid = coin "stake" amount; transactions = [] }) ∷ [];
  timeout_height = some 9;
  signatures = ok ((record { address = address; sequence = 0 }) ∷ []);
  fee = some (write (some amount));
}

abbrev factory : Factory simple_sdk
factory = default_auction_factory simple_sdk

abbrev bids : PriorityNonceMempoolConfig simple_sdk String
bids = config_of (tx_priority texts simple_sdk factory) (pos 9)

abbrev two_bids : Pool simple_sdk textual bids (lists bids.tx_priority.compare) by_nonce
two_bids =
    (insert_cached simple_sdk textual bids (lists bids.tx_priority.compare) by_nonce ctx
      (bid_tx (2 ∷ []) (pos 7))
      (insert_cached simple_sdk textual bids (lists bids.tx_priority.compare) by_nonce ctx
        (bid_tx (1 ∷ []) (pos 5))
        (new_constructor_mempool simple_sdk textual bids (lists bids.tx_priority.compare)
          by_nonce)).1).1

abbrev given : Given simple_sdk
given = record {
  has_logger = true;
  has_tx_encoder = true;
  has_tx_decoder = true;
  cfg = record { ante_handler = none; max_block_space = pos 5; ignore_list = []; max_txs = pos 9 };
}

new_tob_lane_iff_example :
    (new_tob_lane simple_sdk textual lists by_nonce texts given factory
      ≡ ok (tob_lane simple_sdk textual lists by_nonce texts given factory))
    ↔ (IsConfigured simple_sdk (unchecked simple_sdk textual lists by_nonce texts given factory)
        × (tob_lane simple_sdk textual lists by_nonce texts given factory
            ≡ tob_lane simple_sdk textual lists by_nonce texts given factory))
new_tob_lane_iff_example =
    new_tob_lane_iff simple_sdk textual lists by_nonce texts given factory
      (tob_lane simple_sdk textual lists by_nonce texts given factory)
