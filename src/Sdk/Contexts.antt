-- ===== src/Sdk/Contexts.antt =====
-- The methods of sdk.Context of cosmos-sdk that the code calls, on the values of a context.
use pob.Prelude.{ℕ, ◌≡◌, Bool, true, String, List}
use pob.Prelude.Int.{ℤ}

pub record ContextOps (Ctx : Type 0) : Type 1 where
  pub ConsensusParams : Type 0
  pub is_check_tx : Ctx → Bool
  pub is_recheck_tx : Ctx → Bool
  pub block_height : Ctx → ℤ
  pub priority : Ctx → ℤ
  pub gas_limit : Ctx → ℕ
  pub gas_consumed : Ctx → ℕ
  -- sdk.NewContext, of a header's height and chain id and of the check mode
  pub new_context : ℤ → String → Bool → Ctx
  pub with_is_check_tx : Bool → Ctx → Ctx
  pub with_is_recheck_tx : Bool → Ctx → Ctx
  pub with_tx_bytes : List ℕ → Ctx → Ctx
  pub with_consensus_params : ConsensusParams → Ctx → Ctx
  pub block_height-new_context :
      (h : ℤ) (id : String) (b : Bool) → block_height (new_context h id b) ≡ h
  pub block_height-with_is_check_tx :
      (b : Bool) (c : Ctx) → block_height (with_is_check_tx b c) ≡ block_height c
  pub block_height-with_is_recheck_tx :
      (b : Bool) (c : Ctx) → block_height (with_is_recheck_tx b c) ≡ block_height c
  pub block_height-with_tx_bytes :
      (bz : List ℕ) (c : Ctx) → block_height (with_tx_bytes bz c) ≡ block_height c
  pub block_height-with_consensus_params :
      (p : ConsensusParams) (c : Ctx) → block_height (with_consensus_params p c) ≡ block_height c
  pub is_check_tx-new_context :
      (h : ℤ) (id : String) (b : Bool) → is_check_tx (new_context h id b) ≡ b
  pub is_check_tx-with_is_check_tx : (b : Bool) (c : Ctx) → is_check_tx (with_is_check_tx b c) ≡ b
  -- a recheck is a check
  pub is_check_tx-with_is_recheck_tx : (c : Ctx) → is_check_tx (with_is_recheck_tx true c) ≡ true
  pub is_recheck_tx-with_is_recheck_tx :
      (b : Bool) (c : Ctx) → is_recheck_tx (with_is_recheck_tx b c) ≡ b
  pub is_check_tx-with_tx_bytes :
      (bz : List ℕ) (c : Ctx) → is_check_tx (with_tx_bytes bz c) ≡ is_check_tx c
  pub is_check_tx-with_consensus_params :
      (p : ConsensusParams) (c : Ctx) → is_check_tx (with_consensus_params p c) ≡ is_check_tx c
