-- ===== src/Contracts/Funding/Attach.antt =====
-- contracts/funding.go: `AttachPools` and `attachSharingPools`, which attach accounts to pools on a
-- host, batch by batch. The two share one loop here, as their bodies agree but for the calls.
pub mod Attached
mod Tests
use indexd.Base.{
  ℕ, zero, suc, Bool, Option, none, some, List, [], ◌∷◌, length, map, ltb, if◌then◌else◌,
}
use indexd.Base.Outcome.{Outcome, ok, err, panic}
use indexd.Contracts.Revision.{Error, Called}

-- `accounts.PendingAttachment` and `rhp.PoolAttachInput`
pub record PendingAttachment : Type 0 where
  pub account_key : ℕ
  pub pool_key : ℕ

pub record PoolAttachInput : Type 0 where
  pub account : ℕ
  pub pool_key : ℕ

abbrev pub attach_input : PendingAttachment → PoolAttachInput
attach_input p = record { account = p.account_key; pool_key = p.pool_key }

-- The calls of one of the loops: `PendingPoolAttachments` and `InsertPoolAttachments`, or
-- `SharingPoolAttachments` and `MarkSharingPoolsAttached`, and the host's `AttachPools`.
pub record AttachCalls (W : Type 0) : Type 0 where
  pub pending : W → ℕ → Outcome Error (List PendingAttachment)
  pub attach : List PoolAttachInput → W → Called W (Unit {0})
  pub note_attached : List PendingAttachment → W → Called W (Unit {0})

module _ {W : Type 0} (calls : AttachCalls W) (max_account_batch_size : ℕ) where
  open calls use {pending, attach, note_attached}

  abbrev pub end_attach : W → Outcome Error (Unit {0}) → Option (Called W (Unit {0}))
  end_attach w r = some (record { world = w; result = r })

  after_note :
      (W → Option (Called W (Unit {0})))
      → Bool
      → W
      → Outcome Error (Unit {0})
      → Option (Called W (Unit {0}))
  after_note again exhausted w (err e) = end_attach w (err e)
  after_note again exhausted w panic = end_attach w panic
  after_note again exhausted w (ok t) = if exhausted then end_attach w (ok tt) else again w

  after_attach :
      (W → Option (Called W (Unit {0})))
      → List PendingAttachment
      → W
      → Outcome Error (Unit {0})
      → Option (Called W (Unit {0}))
  unfolding after_note
  after_attach again batch w (err e) = end_attach w (err e)
  after_attach again batch w panic = end_attach w panic
  after_attach again batch w (ok t) =
      let r = note_attached batch w in
      after_note again (ltb (length batch) max_account_batch_size) r.world r.result

  attach_batch :
      (W → Option (Called W (Unit {0})))
      → W
      → Outcome Error (List PendingAttachment)
      → Option (Called W (Unit {0}))
  unfolding after_attach
  attach_batch again w (err e) = end_attach w (err e)
  attach_batch again w panic = end_attach w panic
  attach_batch again w (ok []) = end_attach w (ok tt)
  attach_batch again w (ok (p ∷ batch)) =
      let r = attach (map attach_input (p ∷ batch)) w in
      after_attach again (p ∷ batch) r.world r.result

  -- `none` means that the fuel ran out.
  pub attach_loop : ℕ → W → Option (Called W (Unit {0}))
  unfolding attach_batch
  attach_loop zero w = none
  attach_loop (suc fuel) w = attach_batch (attach_loop fuel) w (pending w max_account_batch_size)

module _ {W : Type 0} (pools sharing : AttachCalls W) (max_account_batch_size fuel : ℕ) where
  then_sharing : Option (Called W (Unit {0})) → Option (Called W (Unit {0}))
  then_sharing none = none
  then_sharing (some r) = elim r.result [
    | ok t ↦ attach_loop sharing max_account_batch_size fuel r.world
    | err e ↦ some r
    | panic ↦ some r
  ]

  -- `AttachPools`
  pub attach_pools : W → Option (Called W (Unit {0}))
  unfolding then_sharing
  attach_pools w = then_sharing (attach_loop pools max_account_batch_size fuel w)
