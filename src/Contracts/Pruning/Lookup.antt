-- ===== src/Contracts/Pruning/Lookup.antt =====
-- The batches in which the store is asked for prunable roots.
use indexd.Base.{
  contains-keep, keep-cong, ℕ, zero, suc, ◌≡◌, ◌≤◌, refl, ap, sym, ◌∙◌, Bool, not, ◌&&◌, List, [],
  ◌∷◌, ◌++◌, length, take, drop, contains, keep, arith, Bool-cases, inl, inr, length-drop,
  take-append-drop,
}
use indexd.Base.Outcome.{ok, value_of, ok_inj}
use indexd.Contracts.Revision.{RevisionStore}
use indexd.Contracts.Pruning.{PruneCalls, look_up, db_roots_batch_size}
use indexd.Contracts.Pruning.Laws.{PruneLaws}

keep-append : (p : ℕ → Bool) (xs ys : List ℕ) → keep p (xs ++ ys) ≡ keep p xs ++ keep p ys
keep-append p [] ys = refl
keep-append p (x ∷ xs) ys = elim (Bool-cases (p x)) [
  | inl t ↦ rw (t, keep-append p xs ys) refl
  | inr f ↦ rw (f, keep-append p xs ys) refl
]

-- Looking up the roots that a list keeps keeps them.
pub keep-contains-keep : (p : ℕ → Bool) (xs : List ℕ) → keep (contains (keep p xs)) xs ≡ keep p xs
keep-contains-keep p xs =
    keep-cong (contains (keep p xs)) p xs
      (λ x among. contains-keep p xs x ∙ ap (λ b. b && p x) among)

module _ {S W Usage : Type 0} (db : RevisionStore S Usage) (calls : PruneCalls S W Usage)
    (laws : PruneLaws db calls) where
  open laws use {wanted, found_prunable}

  -- The batches together are the roots that the store does not refer to.
  pub look_up_lem :
      (fuel : ℕ) (s : S) (id : ℕ) (roots prunable : List ℕ)
      → length roots ≤ fuel
      → look_up calls fuel s id roots ≡ ok prunable
      → prunable ≡ keep (λ root. not (wanted s id root)) roots
  unfolding look_up
  look_up_lem zero s id [] prunable enough went = sym (ok_inj went)
  look_up_lem zero s id (root ∷ roots) prunable enough went = absurd (omega arith)
  look_up_lem (suc fuel) s id [] prunable enough went = sym (ok_inj went)
  look_up_lem (suc fuel) s id (root ∷ roots) prunable enough went =
      let all = root ∷ roots in
      let first =
        value_of _ (calls.prunable_contract_roots s id (take db_roots_batch_size all)) went in
      let second = value_of _ (look_up calls fuel s id (drop db_roots_batch_size all)) first.2 in
      let shorter : length (drop db_roots_batch_size all) ≤ fuel =
        omega (arith, length-drop db_roots_batch_size all) in
      let batch = found_prunable s id (take db_roots_batch_size all) first.0 first.1 in
      let rest = look_up_lem fuel s id (drop db_roots_batch_size all) second.0 shorter second.1 in
      let p : ℕ → Bool = λ x. not (wanted s id x) in
      sym (ok_inj second.2)
      ∙ ap (λ l. l ++ second.0) batch
      ∙ ap (λ l. keep p (take db_roots_batch_size all) ++ l) rest
      ∙ sym (keep-append p (take db_roots_batch_size all) (drop db_roots_batch_size all))
      ∙ ap (keep p) (take-append-drop db_roots_batch_size all)
