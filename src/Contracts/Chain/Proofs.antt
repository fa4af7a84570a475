-- ===== src/Contracts/Chain/Proofs.antt =====
-- The proofs of the elements, and what one update of the chain does.
use indexd.Base.{
  ℕ, ◌≡◌, refl, sym, ap, ◌∙◌, subst, Bool, true, false, Option, none, some, List, [], ◌∷◌, map,
  ◌==◌, if◌then◌else◌, Bool-cases, inl, inr, none-ne-some,
}
use indexd.Base.Outcome.{ok, ok_inj, ◌>>=◌, value_of}
use indexd.Contracts.ChainTx.{Element, ChainUpdate, UpdateTx, is_some, at_key, latest, prove}
use indexd.Contracts.Chain.{
  CachedTx, apply_v2_contract_diffs, revert_v2_contract_diffs, update_contract_element_proofs,
  apply_chain_update, revert_chain_update,
}
use indexd.Contracts.Chain.Effects.{
  Effect, apply_effect, revert_effect, diff_of, OnePerContract, effect_at, row_after, element_after,
}
use indexd.Contracts.Chain.Cache.{Sound}
use indexd.Contracts.Chain.Apply.{
  apply_v2_contract_diffs-Changed, revert_v2_contract_diffs-Changed, Changed,
}

prove-if :
    (f : ℕ → ℕ) (x : Element) (e : Option Element) (b : Bool)
    → (if b then some (prove f x) else at_key (prove f) e)
      ≡ at_key (prove f) (if b then some x else e)
prove-if f x e true = refl
prove-if f x e false = refl

-- New proofs for a list of elements are new proofs for the elements that it leaves.
latest-map :
    (f : ℕ → ℕ) (es : List Element) (k : ℕ) (e : Option Element)
    → latest (map (prove f) es) k (at_key (prove f) e) ≡ at_key (prove f) (latest es k e)
latest-map f [] k e = refl
latest-map f (x ∷ es) k e =
    ap (latest (map (prove f) es) k) (prove-if f x e (k == x.id)) ∙ latest-map f es k _

-- What a list leaves of an element that stands in it does not depend on what was there before.
latest-any :
    (es : List Element) (k : ℕ) (e : Option Element) (x : Element)
    → latest es k none ≡ some x
    → latest es k e ≡ some x
latest-any [] k e x found = absurd (none-ne-some found)
latest-any (y ∷ es) k e x found = elim (Bool-cases (k == y.id)) [
  | inl here ↦ rw here (subst (λ b. latest es k (if b then some y else none) ≡ some x) here found)
  | inr other ↦ rw other (
      latest-any es k e x
        (subst (λ b. latest es k (if b then some y else none) ≡ some x) other found))
]

latest-proven :
    (f : ℕ → ℕ) (es : List Element) (k : ℕ) (o : Option Element)
    → latest es k none ≡ o
    → latest (map (prove f) es) k o ≡ at_key (prove f) o
latest-proven f es k none found = latest-map f es k none ∙ ap (at_key (prove f)) found
latest-proven f es k (some x) found =
    latest-any (map (prove f) es) k (some x) (prove f x)
      (latest-map f es k none ∙ ap (at_key (prove f)) found)

module _ {S Err : Type 0} (ops : UpdateTx S Err) (v2_renewal_id : ℕ → ℕ) (known : ℕ → Bool) where
  open ops use {row_of, element_of}

  -- Each stored element gets its new proof, and nothing else changes.
  pub update_contract_element_proofs-proven :
      (f : ℕ → ℕ) (tx after : CachedTx S)
      → update_contract_element_proofs ops v2_renewal_id f tx ≡ ok after
      → (after.known_contracts ≡ tx.known_contracts)
        × ((k : ℕ)
            → (row_of after.db k ≡ row_of tx.db k)
              × (element_of after.db k ≡ at_key (prove f) (element_of tx.db k)))
  unfolding update_contract_element_proofs
  update_contract_element_proofs-proven f tx after went =
      let (fces, listed, second_half) =
        value_of
          (λ fces. ops.update_contract_elements (map (prove f) fces) tx.db >>= λ t.
            ok (record tx { db = t }))
          (ops.contract_elements tx.db) went in
      let (t, written, rest) =
        value_of (λ t. ok (record tx { db = t }))
          (ops.update_contract_elements (map (prove f) fces) tx.db) second_half in
      rw (← ok_inj rest) (
        refl,
        λ k.
            let (row, element) = ops.written (map (prove f) fces) tx.db t written k in
            (
              row,
              element
                  ∙ latest-proven f fces k (element_of tx.db k) (ops.listed tx.db fces listed k),
            ),
      )

  -- An effect on each contract, after which each element has a new proof.
  unfoldable pub ChangedAndProven : (ℕ → ℕ) → (ℕ → Effect) → S → S → Type 0
  ChangedAndProven f effect s t =
      (k : ℕ)
      → (row_of t k ≡ row_after (effect k) (row_of s k))
        × (element_of t k ≡ at_key (prove f) (element_after (known k) (effect k) (element_of s k)))

  then_proven :
      (f : ℕ → ℕ) (effect : ℕ → Effect) (tx middle after : CachedTx S)
      → Sound ops v2_renewal_id known middle
      → Changed ops v2_renewal_id known effect tx middle
      → update_contract_element_proofs ops v2_renewal_id f middle ≡ ok after
      → Sound ops v2_renewal_id known after × ChangedAndProven f effect tx.db after.db
  unfolding ChangedAndProven Changed
  then_proven f effect tx middle after sound changed went =
      let (cache, proven) = update_contract_element_proofs-proven f middle after went in
      (
        λ k. (
          ap is_some (proven k).0 ∙ (sound k).0,
          λ b hit. (sound k).1 b (sym (ap (λ m. m k) cache) ∙ hit),
        ),
        λ k. ((proven k).0 ∙ (changed k).0, (proven k).1 ∙ ap (at_key (prove f)) (changed k).1),
      )

  -- Applying a block has on each contract that is stored the effect of its diff, if it has one, and
  -- each stored element then gets its new proof.
  pub apply_chain_update-ChangedAndProven :
      (cau : ChainUpdate) (tx after : CachedTx S)
      → Sound ops v2_renewal_id known tx
      → OnePerContract cau.diffs
      → apply_chain_update ops v2_renewal_id tx cau ≡ ok after
      → Sound ops v2_renewal_id known after
        × ChangedAndProven cau.update_proof
            (λ k. effect_at (apply_effect known v2_renewal_id) (diff_of cau.diffs k))
            tx.db
            after.db
  unfolding apply_chain_update
  apply_chain_update-ChangedAndProven cau tx after sound one went =
      let (middle, first, second) =
        value_of (update_contract_element_proofs ops v2_renewal_id cau.update_proof)
          (apply_v2_contract_diffs ops v2_renewal_id tx cau.diffs) went in
      let (still, changed) =
        apply_v2_contract_diffs-Changed ops v2_renewal_id known cau.diffs tx middle sound one
          first in
      then_proven cau.update_proof _ tx middle after still changed second

  pub revert_chain_update-ChangedAndProven :
      (cru : ChainUpdate) (tx after : CachedTx S)
      → Sound ops v2_renewal_id known tx
      → OnePerContract cru.diffs
      → revert_chain_update ops v2_renewal_id tx cru ≡ ok after
      → Sound ops v2_renewal_id known after
        × ChangedAndProven cru.update_proof
            (λ k. effect_at revert_effect (diff_of cru.diffs k))
            tx.db
            after.db
  unfolding revert_chain_update
  revert_chain_update-ChangedAndProven cru tx after sound one went =
      let (middle, first, second) =
        value_of (update_contract_element_proofs ops v2_renewal_id cru.update_proof)
          (revert_v2_contract_diffs ops v2_renewal_id tx cru.diffs) went in
      let (still, changed) =
        revert_v2_contract_diffs-Changed ops v2_renewal_id known cru.diffs tx middle sound one
          first in
      then_proven cru.update_proof _ tx middle after still changed second
