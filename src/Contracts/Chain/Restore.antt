-- ===== src/Contracts/Chain/Restore.antt =====
-- A block that is applied and then reverted.
use indexd.Base.{
  ℕ, ◌≡◌, refl, sym, ap, ◌∙◌, subst, Bool, none, some, List, [], ◌∷◌, ◌==◌, if◌then◌else◌, All,
  Bool-cases, inl, inr, ==_iff, some_inj, none-ne-some,
}
use indexd.Base.Outcome.{ok, ok_inj, ◌>>=◌, value_of}
use indexd.Contracts.ChainTx.{Diff, Row, ChainUpdate, UpdateTx, is_some, at_key, prove}
use indexd.Contracts.Chain.{
  CachedTx, apply_chain_update, revert_chain_update, apply_all, revert_all, update_chain_state,
}
use indexd.Contracts.Chain.Effects.{
  apply_effect, revert_effect, diff_of, OnePerContract, effect_at, row_after, element_after,
}
use indexd.Contracts.Chain.Cache.{Sound}
use indexd.Contracts.Chain.Proofs.{
  ChangedAndProven, apply_chain_update-ChangedAndProven, revert_chain_update-ChangedAndProven,
}
use indexd.Contracts.Chain.Undo.{
  body, Before, Fits, less_renewal_at, rows-restored, elements-restored,
}

module _ {S Err : Type 0} (ops : UpdateTx S Err) (v2_renewal_id : ℕ → ℕ) where
  open ops use {row_of, element_of}

  abbrev fresh_cache : S → CachedTx S
  fresh_cache s = record { db = s; known_contracts = λ id. none }

  fresh_cache-Sound :
      (known : ℕ → Bool) (s : S)
      → ((k : ℕ) → is_some (row_of s k) ≡ known k)
      → Sound ops v2_renewal_id known (fresh_cache s)
  fresh_cache-Sound known s same k = (same k, λ b hit. absurd (none-ne-some hit))

  applied_one :
      (known : ℕ → Bool) (s t : S) (cau : ChainUpdate)
      → ((k : ℕ) → is_some (row_of s k) ≡ known k)
      → OnePerContract cau.diffs
      → update_chain_state ops v2_renewal_id s [] (cau ∷ []) ≡ ok t
      → ((k : ℕ) → is_some (row_of t k) ≡ known k)
        × ChangedAndProven ops v2_renewal_id known cau.update_proof
            (λ k. effect_at (apply_effect known v2_renewal_id) (diff_of cau.diffs k))
            s
            t
  unfolding update_chain_state revert_all apply_all
  applied_one known s t cau same one went =
      let (end, both, last) =
        value_of (λ end. ok end.db)
          (apply_chain_update ops v2_renewal_id (fresh_cache s) cau
            >>= apply_all ops v2_renewal_id [])
          went in
      let (after, first, second) =
        value_of (apply_all ops v2_renewal_id [])
          (apply_chain_update ops v2_renewal_id (fresh_cache s) cau) both in
      let reached : after.db ≡ t = ap (λ tx. tx.db) (ok_inj second) ∙ ok_inj last in
      let (sound, changed) =
        apply_chain_update-ChangedAndProven ops v2_renewal_id known cau (fresh_cache s) after
          (fresh_cache-Sound known s same) one first in
      rw (← reached) (λ k. (sound k).0, changed)

  reverted_one :
      (known : ℕ → Bool) (s t : S) (cru : ChainUpdate)
      → ((k : ℕ) → is_some (row_of s k) ≡ known k)
      → OnePerContract cru.diffs
      → update_chain_state ops v2_renewal_id s (cru ∷ []) [] ≡ ok t
      → ChangedAndProven ops v2_renewal_id known cru.update_proof
          (λ k. effect_at revert_effect (diff_of cru.diffs k))
          s
          t
  unfolding update_chain_state revert_all apply_all
  reverted_one known s t cru same one went =
      let (after, both, last) =
        value_of (λ tx. apply_all ops v2_renewal_id [] tx >>= λ end. ok end.db)
          (revert_chain_update ops v2_renewal_id (fresh_cache s) cru
            >>= revert_all ops v2_renewal_id [])
          went in
      let (middle, first, second) =
        value_of (revert_all ops v2_renewal_id [])
          (revert_chain_update ops v2_renewal_id (fresh_cache s) cru) both in
      let reached : middle.db ≡ t = ap (λ tx. tx.db) (ok_inj second) ∙ ok_inj last in
      let (sound, changed) =
        revert_chain_update-ChangedAndProven ops v2_renewal_id known cru (fresh_cache s) middle
          (fresh_cache-Sound known s same) one first in
      rw (← reached) changed

  -- A block with one diff for each contract at most, and that is applied, has on each contract that is
  -- stored the effect of its diff, if it has one, and on no other; each stored element then gets its
  -- new proof.
  pub update_chain_state-apply :
      (s t : S) (cau : ChainUpdate)
      → OnePerContract cau.diffs
      → update_chain_state ops v2_renewal_id s [] (cau ∷ []) ≡ ok t
      → ChangedAndProven ops v2_renewal_id
          (λ j. is_some (row_of s j))
          cau.update_proof
          (λ k.
            effect_at
              (apply_effect (λ j. is_some (row_of s j)) v2_renewal_id)
              (diff_of cau.diffs k))
          s
          t
  update_chain_state-apply s t cau one went =
      (applied_one (λ j. is_some (row_of s j)) s t cau (λ j. refl) one went).1

  -- So does a block that is reverted, with the effects of a revert.
  pub update_chain_state-revert :
      (s t : S) (cru : ChainUpdate)
      → OnePerContract cru.diffs
      → update_chain_state ops v2_renewal_id s (cru ∷ []) [] ≡ ok t
      → ChangedAndProven ops v2_renewal_id
          (λ j. is_some (row_of s j))
          cru.update_proof
          (λ k. effect_at revert_effect (diff_of cru.diffs k))
          s
          t
  update_chain_state-revert s t cru one went =
      reverted_one (λ j. is_some (row_of s j)) s t cru (λ j. refl) one went

  -- A diff that fits what is stored of its contract, if the contract is stored.
  abbrev pub FitsStore : S → Diff → Type 0
  FitsStore s d =
      (row : Row)
      → row_of s d.element.id ≡ some row
      → Before d.created d.resolution d.element row (element_of s d.element.id)

  diff_of-Fits :
      (s : S) (diffs : List Diff)
      → All (FitsStore s) diffs
      → (k : ℕ)
      → Fits
          (λ j. is_some (row_of s j))
          v2_renewal_id
          (diff_of diffs k)
          (row_of s k)
          (element_of s k)
  unfolding diff_of
  diff_of-Fits s [] fit k d row found stored = absurd (none-ne-some found)
  diff_of-Fits s (c ∷ diffs) fit k d row found stored = elim (Bool-cases (k == c.element.id)) [
    | inl here ↦
        let at_c : k ≡ c.element.id = (==_iff k c.element.id).0 here in
        let same : c ≡ d =
          some_inj (subst (λ b. (if b then some c else diff_of diffs k) ≡ some d) here found) in
        rw (← same, at_c) (fit.0 row (subst (λ j. row_of s j ≡ some row) at_c stored))
    | inr other ↦
        diff_of-Fits s diffs fit.1 k d row
          (subst (λ b. (if b then some c else diff_of diffs k) ≡ some d) other found) stored
  ]

  -- A block is applied in one update of the chain and reverted in another, it has one diff for each
  -- contract at most, and its diffs fit what is stored: a contract that it forms is pending and has no
  -- element, one that it resolves is active, and the elements that it shows are those stored. If both
  -- updates succeed, then each contract has its state as before, also its renewal unless the block
  -- renews it, when it has none any more, and each element is as before but for its proof.
  pub update_chain_state-reverted :
      (s t u : S) (cau cru : ChainUpdate)
      → cru.diffs ≡ cau.diffs
      → OnePerContract cau.diffs
      → All (FitsStore s) cau.diffs
      → update_chain_state ops v2_renewal_id s [] (cau ∷ []) ≡ ok t
      → update_chain_state ops v2_renewal_id t (cru ∷ []) [] ≡ ok u
      → (k : ℕ)
      → (row_of u k ≡ at_key (less_renewal_at (diff_of cau.diffs k)) (row_of s k))
        × (at_key body (element_of u k) ≡ at_key body (element_of s k))
  unfolding ChangedAndProven
  update_chain_state-reverted s t u cau cru same_diffs one fits applied reverted k =
      let known : ℕ → Bool = λ j. is_some (row_of s j) in
      let (still, changed) = applied_one known s t cau (λ j. refl) one applied in
      let back =
        reverted_one known t u cru still (subst OnePerContract (sym same_diffs) one) reverted in
      let (row, element) = changed k in
      let (row', element') = back k in
      let same : diff_of cru.diffs k ≡ diff_of cau.diffs k = ap (λ ds. diff_of ds k) same_diffs in
      (
        row'
            ∙ ap (λ o. row_after (effect_at revert_effect o) (row_of t k)) same
            ∙ ap (row_after (effect_at revert_effect (diff_of cau.diffs k))) row
            ∙ rows-restored known v2_renewal_id (diff_of cau.diffs k) (row_of s k) (element_of s k)
                (diff_of-Fits s cau.diffs fits k),
        ap (at_key body) element'
            ∙ ap
                (λ o. at_key body (
                  at_key (prove cru.update_proof)
                    (element_after (known k) (effect_at revert_effect o) (element_of t k))))
                same
            ∙ ap
                (λ x. at_key body (
                  at_key (prove cru.update_proof)
                    (element_after (known k) (effect_at revert_effect (diff_of cau.diffs k)) x)))
                element
            ∙ elements-restored known v2_renewal_id cau.update_proof cru.update_proof
                (diff_of cau.diffs k) (row_of s k) (element_of s k)
                (diff_of-Fits s cau.diffs fits k),
      )
