-- ===== src/Ledger/Tampering.antt =====
-- Two ledgers under one checkpoint: what a changed ledger that `verify_integrity` of src/mgk/ledger.py
-- still accepts would have to be.
use mgk_governance_kernel.Prelude.{ℕ, suc, ◌≡◌, ◌≢◌, some, List, [], ◌∷◌, String}
use mgk_governance_kernel.Errors.{ok}
use mgk_governance_kernel.Json.{Value, Fields, get, without}
use mgk_governance_kernel.Platform.{Bytes, Platform}
use mgk_governance_kernel.Canonical.{digest}
use mgk_governance_kernel.Ledger.Chain.{IsRecord}

module _ (p : Platform) where
  -- Two lists of lines that are record for record two records with one number, one hash before them
  -- and one hash of their own.
  pub data AreTwins : List Bytes → List Bytes → ℕ → String → ℕ → String → Type 0 where
    both_done : {n : ℕ} {head : String} → AreTwins [] [] n head n head
    both_link :
        {line other : Bytes} {rest others : List Bytes} {n m : ℕ} {previous hash head : String}
        → IsRecord p line n previous hash
        → IsRecord p other n previous hash
        → AreTwins rest others (suc n) hash m head
        → AreTwins (line ∷ rest) (other ∷ others) n previous m head

  -- Two records that name different hashes before them, and still have one digest.
  pub record Collision : Type 0 where
    pub fields : Fields
    pub others : Fields
    pub before : String
    pub other_before : String
    pub hash : String
    pub linked : get "prev_hash" fields ≡ some (Value.str before)
    pub other_linked : get "prev_hash" others ≡ some (Value.str other_before)
    pub different : before ≢ other_before
    pub hashed : digest p (Value.obj (without "event_hash" fields)) ≡ ok hash
    pub other_hashed : digest p (Value.obj (without "event_hash" others)) ≡ ok hash
