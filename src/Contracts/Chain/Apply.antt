-- ===== src/Contracts/Chain/Apply.antt =====
-- What applying and reverting the diffs of a block does to each contract.
use indexd.Base.{
  ℕ, ◌≡◌, refl, ap, ◌∙◌, Bool, true, false, ◌&&◌, Option, none, some, List, [], ◌∷◌, contains,
  if◌then◌else◌,
}
use indexd.Base.Outcome.{ok, ok_inj, ◌>>=◌, value_of}
use indexd.Contracts.ChainTx.{Element, Resolution, Diff, UpdateTx, is_some, latest}
use indexd.Contracts.Chain.{
  CachedTx, Progress, start, apply_known, revert_known, visit_all, write_all, delete_all,
  apply_v2_contract_diffs, revert_v2_contract_diffs,
}
use indexd.Contracts.Chain.Effects.{
  Effect, apply_effect, revert_effect, reverted_case, diff_of, OnePerContract, or_else, effect_at,
  row_after, element_after,
}
use indexd.Contracts.Chain.Cache.{Sound}
use indexd.Contracts.Chain.Loop.{visit_all-Effects}
use indexd.Contracts.Chain.Switch.{apply_known-HasEffect, revert_known-HasEffect}

write_after_delete :
    (is_in removed : Bool) (written e : Option Element)
    → (removed ≡ true → written ≡ none)
    → (if is_in
        then or_else written (if is_in && removed then none else e)
        else (if is_in && removed then none else e))
      ≡ (if is_in then (if removed then none else or_else written e) else e)
write_after_delete false removed written e clean = refl
write_after_delete true false written e clean = refl
write_after_delete true true written e clean = rw (clean refl) refl

delete_after_write :
    (is_in removed : Bool) (written e : Option Element)
    → (if is_in && removed then none else (if is_in then or_else written e else e))
      ≡ (if is_in then (if removed then none else or_else written e) else e)
delete_after_write false removed written e = refl
delete_after_write true false written e = refl
delete_after_write true true written e = refl

-- A case of a revert that deletes an element writes none.
reverted_case-removed :
    (d : Diff) (created : Bool) (resolution : Option Resolution)
    → (reverted_case d created resolution).removed ≡ true
    → (reverted_case d created resolution).written ≡ none
unfolding reverted_case
reverted_case-removed d true r e = refl
reverted_case-removed d false (some r) e = cc
reverted_case-removed d false none e = cc

reverted-removed :
    (o : Option Diff)
    → (effect_at revert_effect o).removed ≡ true
    → (effect_at revert_effect o).written ≡ none
reverted-removed none e = refl
reverted-removed (some d) e = reverted_case-removed d d.created d.resolution e

module _ {S Err : Type 0} (ops : UpdateTx S Err) (v2_renewal_id : ℕ → ℕ) (known : ℕ → Bool) where
  open ops use {row_of, element_of}

  write_all-written :
      (es : List Element) (s t : S)
      → write_all ops v2_renewal_id es s ≡ ok t
      → (k : ℕ) → (row_of t k ≡ row_of s k) × (element_of t k ≡ latest es k (element_of s k))
  unfolding write_all
  write_all-written [] s t went k = rw (← ok_inj went) (refl, refl)
  write_all-written (e ∷ es) s t went k = ops.written (e ∷ es) s t went k

  delete_all-deleted :
      (ids : List ℕ) (s t : S)
      → delete_all ops v2_renewal_id ids s ≡ ok t
      → (k : ℕ)
      → (row_of t k ≡ row_of s k)
        × (element_of t k ≡ (if contains ids k then none else element_of s k))
  unfolding delete_all
  delete_all-deleted [] s t went k = rw (← ok_inj went) (refl, refl)
  delete_all-deleted (id ∷ ids) s t went k = ops.deleted (id ∷ ids) s t went k

  -- What an effect on each contract makes of what is stored.
  unfoldable pub Changed : (ℕ → Effect) → CachedTx S → CachedTx S → Type 0
  Changed effect tx after =
      (k : ℕ)
      → (row_of after.db k ≡ row_after (effect k) (row_of tx.db k))
        × (element_of after.db k ≡ element_after (known k) (effect k) (element_of tx.db k))

  Sound-after :
      (p : Progress S) (t : S)
      → Sound ops v2_renewal_id known p.tx
      → ((k : ℕ) → row_of t k ≡ row_of p.tx.db k)
      → Sound ops v2_renewal_id known (record p.tx { db = t })
  Sound-after p t sound same k = (ap is_some (same k) ∙ (sound k).0, (sound k).1)

  -- Applying the diffs of a block has on each contract that is stored the effect of its diff, if it has
  -- one; the cache of the transaction stays right.
  pub apply_v2_contract_diffs-Changed :
      (diffs : List Diff) (tx after : CachedTx S)
      → Sound ops v2_renewal_id known tx
      → OnePerContract diffs
      → apply_v2_contract_diffs ops v2_renewal_id tx diffs ≡ ok after
      → Sound ops v2_renewal_id known after
        × Changed (λ k. effect_at (apply_effect known v2_renewal_id) (diff_of diffs k)) tx after
  unfolding apply_v2_contract_diffs Changed
  apply_v2_contract_diffs-Changed diffs tx after sound one went =
      let (p, looped, ended) =
        value_of
          (λ p. write_all ops v2_renewal_id p.updated p.tx.db >>= λ s.
            delete_all ops v2_renewal_id p.removed s >>= λ t. ok (record p.tx { db = t }))
          (visit_all ops v2_renewal_id (apply_known ops v2_renewal_id) diffs
            (start ops v2_renewal_id tx))
          went in
      let (s, first, second_half) =
        value_of
          (λ s. delete_all ops v2_renewal_id p.removed s >>= λ t. ok (record p.tx { db = t }))
          (write_all ops v2_renewal_id p.updated p.tx.db) ended in
      let (t, second, rest) =
        value_of (λ t. ok (record p.tx { db = t })) (delete_all ops v2_renewal_id p.removed s)
          second_half in
      let (still, effects) =
        visit_all-Effects ops v2_renewal_id known (apply_effect known v2_renewal_id)
          (apply_known ops v2_renewal_id) (apply_known-HasEffect ops v2_renewal_id known) diffs
          (start ops v2_renewal_id tx) p sound one looped in
      let w = write_all-written p.updated p.tx.db s first in
      let d = delete_all-deleted p.removed s t second in
      rw (← ok_inj rest) (
        Sound-after p t still (λ k. (d k).0 ∙ (w k).0),
        λ k.
            let (row, element, updated, removed) = effects k in
            (
              (d k).0 ∙ (w k).0 ∙ row,
              (d k).1
                  ∙ ap (λ b. if b then none else element_of s k) removed
                  ∙ ap
                      (λ e.
                        if known k
                          && (effect_at (apply_effect known v2_renewal_id)
                              (diff_of diffs k)).removed
                        then none
                        else e)
                      ((w k).1 ∙ ap (latest p.updated k) element ∙ updated (element_of tx.db k))
                  ∙ delete_after_write (known k) _ _ (element_of tx.db k),
            ),
      )

  -- So has reverting them.
  pub revert_v2_contract_diffs-Changed :
      (diffs : List Diff) (tx after : CachedTx S)
      → Sound ops v2_renewal_id known tx
      → OnePerContract diffs
      → revert_v2_contract_diffs ops v2_renewal_id tx diffs ≡ ok after
      → Sound ops v2_renewal_id known after
        × Changed (λ k. effect_at revert_effect (diff_of diffs k)) tx after
  unfolding revert_v2_contract_diffs Changed
  revert_v2_contract_diffs-Changed diffs tx after sound one went =
      let (p, looped, ended) =
        value_of
          (λ p. delete_all ops v2_renewal_id p.removed p.tx.db >>= λ s.
            write_all ops v2_renewal_id p.updated s >>= λ t. ok (record p.tx { db = t }))
          (visit_all ops v2_renewal_id (revert_known ops v2_renewal_id) diffs
            (start ops v2_renewal_id tx))
          went in
      let (s, first, second_half) =
        value_of (λ s. write_all ops v2_renewal_id p.updated s >>= λ t. ok (record p.tx { db = t }))
          (delete_all ops v2_renewal_id p.removed p.tx.db) ended in
      let (t, second, rest) =
        value_of (λ t. ok (record p.tx { db = t })) (write_all ops v2_renewal_id p.updated s)
          second_half in
      let (still, effects) =
        visit_all-Effects ops v2_renewal_id known revert_effect (revert_known ops v2_renewal_id)
          (revert_known-HasEffect ops v2_renewal_id known) diffs (start ops v2_renewal_id tx) p
          sound one looped in
      let d = delete_all-deleted p.removed p.tx.db s first in
      let w = write_all-written p.updated s t second in
      rw (← ok_inj rest) (
        Sound-after p t still (λ k. (w k).0 ∙ (d k).0),
        λ k.
            let (row, element, updated, removed) = effects k in
            let deleted =
              (d k).1
              ∙ ap (λ b. if b then none else element_of p.tx.db k) removed
              ∙ ap
                  (λ e.
                    if known k && (effect_at revert_effect (diff_of diffs k)).removed
                    then none
                    else e)
                  element in
            (
              (w k).0 ∙ (d k).0 ∙ row,
              (w k).1
                  ∙ ap (latest p.updated k) deleted
                  ∙ updated _
                  ∙ write_after_delete (known k) _ _ (element_of tx.db k)
                      (reverted-removed (diff_of diffs k)),
            ),
      )
