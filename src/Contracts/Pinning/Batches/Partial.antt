-- ===== src/Contracts/Pinning/Batches/Partial.antt =====
-- When `performSectorPinningOnHost` returns no error.
use indexd.Base.{ℕ, ◌≡◌, ◌<◌, List, length}
use indexd.Base.Outcome.{Outcome, ok, err, panic}
use indexd.Base.Proto.{Proto}
use indexd.Contracts.Pinning.Batches.{BatchCalls, Batched, returned, out_of_fuel}

-- If a run returned no error, then it has fetched a batch that was neither empty nor full.
abbrev pub LastPartial :
    {S W : Type 0} → BatchCalls S W → (max_batch host_key : ℕ) → Batched S W → Type 0
LastPartial {S} store max_batch host_key (returned t v (ok u)) =
    (s : S) × (roots : List ℕ) × (store.unpinned_sectors s host_key max_batch ≡ ok roots)
    × (0 < length roots)
    × (length roots < max_batch)
LastPartial store max_batch host_key (returned t v (err e)) = Unit
LastPartial store max_batch host_key (returned t v panic) = Unit
LastPartial store max_batch host_key (out_of_fuel t v) = Unit
