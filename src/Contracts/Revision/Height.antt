-- ===== src/Contracts/Revision/Height.antt =====
-- The height from which a contract is no longer revised.
use indexd.Base.{ℕ, ◌+◌, ◌≤◌, ◌≡◌, ◌↔◌, true, arith}
use indexd.Contracts.Revision.{is_beyond_max_revision_height}

-- A contract is too close to its proof height exactly if the current height and the buffer reach
-- the proof height, or the proof height is within the buffer.
pub is_beyond_max_revision_height_iff :
    (proof_height buffer height : ℕ)
    → (is_beyond_max_revision_height proof_height buffer height ≡ true)
      ↔ (proof_height ≤ height + buffer)
unfolding is_beyond_max_revision_height
is_beyond_max_revision_height_iff proof_height buffer height =
    (λ h. ground arith, λ h. ground arith)
