-- ===== src/Contracts/Chain/Switch.antt =====
-- What the switches over a diff do to its contract.
use indexd.Base.{ℕ, ◌≡◌, refl, ap, ◌∙◌, Bool, true, false, Option, none, some, ◌==◌, if◌then◌else◌}
use indexd.Base.Outcome.{ok, ◌>>=◌, value_of}
use indexd.Contracts.Contract.{ContractState, pending, active, resolved}
use indexd.Contracts.ChainTx.{
  Resolution, renewal, storage_proof, expiration, Diff, Row, UpdateTx, is_some, at_key, renewed_row,
  newest,
}
use indexd.Contracts.Chain.{
  Progress, write, remove, apply_case, apply_known, revert_case, revert_known, set_db,
}
use indexd.Contracts.Chain.Effects.{
  no_effect, applied_case, apply_effect, reverted_case, revert_effect,
}
use indexd.Contracts.Chain.Cache.{Sound}
use indexd.Contracts.Chain.Loop.{Effects, HasEffect}
use indexd.Contracts.Chain.Rewrites.{
  Rewrites, Rewrites-then, Rewrites-nothing, Rewrites-Sound, write-Ends, remove-Ends,
}

module _ {S Err : Type 0} (ops : UpdateTx S Err) (v2_renewal_id : ℕ → ℕ) (known : ℕ → Bool) where
  open ops use {row_of}

  -- The row that a renewal is recorded in, when the contracts that are known are known.
  renewed_row-known :
      (other : ℕ → Bool) (r : ℕ) (o : Option Row)
      → other r ≡ known r
      → at_key (renewed_row other (some r)) o ≡ at_key (renewed_row known (some r)) o
  renewed_row-known other r none same = refl
  renewed_row-known other r (some row) same = rw same refl

  state_updated-Rewrites :
      (id : ℕ) (state : ContractState) (s t : S)
      → ops.update_contract_state id state s ≡ ok t
      → Rewrites ops v2_renewal_id known id (λ row. record row { state = state }) s t
  unfolding Rewrites
  state_updated-Rewrites id state s t went = ops.state_updated id state s t went

  renewal-Rewrites :
      (id r : ℕ) (s t : S)
      → is_some (row_of s r) ≡ known r
      → ops.update_contract_renewed_to id (some r) s ≡ ok t
      → Rewrites ops v2_renewal_id known id (renewed_row known (some r)) s t
  unfolding Rewrites
  renewal-Rewrites id r s t same went k =
      let (row, element) = ops.renewed_to_updated id (some r) s t went k in
      (
        row
            ∙ ap (λ o. if k == id then o else row_of s k)
                (renewed_row-known (λ j. is_some (row_of s j)) r (row_of s k) same),
        element,
      )

  renewal_cleared-Rewrites :
      (id : ℕ) (s t : S)
      → ops.update_contract_renewed_to id none s ≡ ok t
      → Rewrites ops v2_renewal_id known id (λ row. record row { renewed_to = none }) s t
  unfolding Rewrites
  renewal_cleared-Rewrites id s t went = ops.renewed_to_updated id none s t went

  -- A resolution that is no renewal.
  resolved-Ends :
      (d : Diff) (p q : Progress S)
      → Sound ops v2_renewal_id known p.tx
      → known d.element.id ≡ true
      → (ops.update_contract_state d.element.id resolved p.tx.db >>= λ s.
          ok (remove ops v2_renewal_id d.element.id (set_db p s)))
        ≡ ok q
      → Sound ops v2_renewal_id known q.tx
        × Effects ops v2_renewal_id known
            (λ k.
              if k == d.element.id
              then record {
                on_row = λ row. record row { state = resolved };
                written = none;
                removed = true;
              }
              else no_effect)
            p
            q
  resolved-Ends d p q sound is_in went =
      let (s, first, rest) =
        value_of (λ s. ok (remove ops v2_renewal_id d.element.id (set_db p s)))
          (ops.update_contract_state d.element.id resolved p.tx.db) went in
      remove-Ends ops v2_renewal_id known d.element.id _ p q s sound is_in
        (state_updated-Rewrites d.element.id resolved p.tx.db s first) rest

  restored-Ends :
      (d : Diff) (p q : Progress S)
      → Sound ops v2_renewal_id known p.tx
      → known d.element.id ≡ true
      → (ops.update_contract_state d.element.id active p.tx.db >>= λ s.
          ok (write ops v2_renewal_id d.element (set_db p s)))
        ≡ ok q
      → Sound ops v2_renewal_id known q.tx
        × Effects ops v2_renewal_id known
            (λ k.
              if k == d.element.id
              then record {
                on_row = λ row. record row { state = active };
                written = some d.element;
                removed = false;
              }
              else no_effect)
            p
            q
  restored-Ends d p q sound is_in went =
      let (s, first, rest) =
        value_of (λ s. ok (write ops v2_renewal_id d.element (set_db p s)))
          (ops.update_contract_state d.element.id active p.tx.db) went in
      write-Ends ops v2_renewal_id known d.element.id _ d.element p q s sound refl is_in
        (state_updated-Rewrites d.element.id active p.tx.db s first) rest

  apply_case-Effects :
      (d : Diff) (created : Bool) (resolution : Option Resolution) (p q : Progress S)
      → Sound ops v2_renewal_id known p.tx
      → known d.element.id ≡ true
      → (newest d.revision_element d.element).id ≡ d.element.id
      → apply_case ops v2_renewal_id d p created resolution ≡ ok q
      → Sound ops v2_renewal_id known q.tx
        × Effects ops v2_renewal_id known
            (λ k.
              if k == d.element.id
              then applied_case known v2_renewal_id d created resolution
              else no_effect)
            p
            q
  unfolding apply_case applied_case
  apply_case-Effects d true _ p q sound is_in own went =
      let (s, first, rest) =
        value_of (λ s. ok (write ops v2_renewal_id d.element (set_db p s)))
          (ops.update_contract_state d.element.id active p.tx.db) went in
      write-Ends ops v2_renewal_id known d.element.id _ d.element p q s sound refl is_in
        (state_updated-Rewrites d.element.id active p.tx.db s first) rest
  apply_case-Effects d false (some renewal) p q sound is_in own went =
      let (s, first, second_half) =
        value_of
          (λ s.
            ops.update_contract_renewed_to d.element.id (some (v2_renewal_id d.element.id)) s
            >>= λ t. ok (remove ops v2_renewal_id d.element.id (set_db p t)))
          (ops.update_contract_state d.element.id resolved p.tx.db) went in
      let (t, second, rest) =
        value_of (λ t. ok (remove ops v2_renewal_id d.element.id (set_db p t)))
          (ops.update_contract_renewed_to d.element.id (some (v2_renewal_id d.element.id)) s)
          second_half in
      let state = state_updated-Rewrites d.element.id resolved p.tx.db s first in
      let still =
        (Rewrites-Sound ops v2_renewal_id known d.element.id _ p s sound state
          (v2_renewal_id d.element.id)).0 in
      remove-Ends ops v2_renewal_id known d.element.id _ p q t sound is_in
        (Rewrites-then ops v2_renewal_id known d.element.id _ _ p.tx.db s t state
          (renewal-Rewrites d.element.id (v2_renewal_id d.element.id) s t still second))
        rest
  apply_case-Effects d false (some storage_proof) p q sound is_in own went =
      resolved-Ends d p q sound is_in went
  apply_case-Effects d false (some expiration) p q sound is_in own went =
      resolved-Ends d p q sound is_in went
  apply_case-Effects d false none p q sound is_in own went =
      write-Ends ops v2_renewal_id known d.element.id _ (newest d.revision_element d.element) p q
        p.tx.db sound own is_in (Rewrites-nothing ops v2_renewal_id known d.element.id p.tx.db) went

  revert_case-Effects :
      (d : Diff) (created : Bool) (resolution : Option Resolution) (p q : Progress S)
      → Sound ops v2_renewal_id known p.tx
      → known d.element.id ≡ true
      → revert_case ops v2_renewal_id d p created resolution ≡ ok q
      → Sound ops v2_renewal_id known q.tx
        × Effects ops v2_renewal_id known
            (λ k. if k == d.element.id then reverted_case d created resolution else no_effect)
            p
            q
  unfolding revert_case reverted_case
  revert_case-Effects d true _ p q sound is_in went =
      let (s, first, rest) =
        value_of (λ s. ok (remove ops v2_renewal_id d.element.id (set_db p s)))
          (ops.update_contract_state d.element.id pending p.tx.db) went in
      remove-Ends ops v2_renewal_id known d.element.id _ p q s sound is_in
        (state_updated-Rewrites d.element.id pending p.tx.db s first) rest
  revert_case-Effects d false (some renewal) p q sound is_in went =
      let (s, first, second_half) =
        value_of
          (λ s. ops.update_contract_renewed_to d.element.id none s >>= λ t.
            ok (write ops v2_renewal_id d.element (set_db p t)))
          (ops.update_contract_state d.element.id active p.tx.db) went in
      let (t, second, rest) =
        value_of (λ t. ok (write ops v2_renewal_id d.element (set_db p t)))
          (ops.update_contract_renewed_to d.element.id none s) second_half in
      let state = state_updated-Rewrites d.element.id active p.tx.db s first in
      write-Ends ops v2_renewal_id known d.element.id _ d.element p q t sound refl is_in
        (Rewrites-then ops v2_renewal_id known d.element.id _ _ p.tx.db s t state
          (renewal_cleared-Rewrites d.element.id s t second))
        rest
  revert_case-Effects d false (some storage_proof) p q sound is_in went =
      restored-Ends d p q sound is_in went
  revert_case-Effects d false (some expiration) p q sound is_in went =
      restored-Ends d p q sound is_in went
  revert_case-Effects d false none p q sound is_in went =
      write-Ends ops v2_renewal_id known d.element.id _ d.element p q p.tx.db sound refl is_in
        (Rewrites-nothing ops v2_renewal_id known d.element.id p.tx.db) went

  pub apply_known-HasEffect :
      HasEffect ops v2_renewal_id known
        (apply_effect known v2_renewal_id)
        (apply_known ops v2_renewal_id)
  unfolding apply_known
  apply_known-HasEffect d p q sound is_in own went =
      apply_case-Effects d d.created d.resolution p q sound is_in own went

  pub revert_known-HasEffect :
      HasEffect ops v2_renewal_id known revert_effect (revert_known ops v2_renewal_id)
  unfolding revert_known
  revert_known-HasEffect d p q sound is_in own went =
      revert_case-Effects d d.created d.resolution p q sound is_in went
