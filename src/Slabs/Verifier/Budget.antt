-- ===== src/Slabs/Verifier/Budget.antt =====
-- What `VerifySectors` spends, and how many results it returns.
use indexd.Base.{
  ℕ, suc, ◌+◌, ◌-◌, ◌≡◌, ◌≤◌, Bool, true, false, List, [], ◌∷◌, ◌++◌, length, length-append, ltb,
  arith, Bool-cases, inl, inr,
}
use indexd.Base.Outcome.{Outcome, ok, err, panic}
use indexd.Slabs.Verifier.{
  CheckSectorsResult, VerifyError, VerifyCalls, Verified, sector_result, is_not_enough_funds,
  end_verify, Rest, note_read, after_read, after_debit, after_prices, verify_each, with_budget,
  verify_sectors,
}

-- What the service account has been debited in total; only `debit` changes it, by its amount at most.
pub record SpendLaws {W Prices : Type 0} (calls : VerifyCalls W Prices) : Type 0 where
  pub spent : W → ℕ
  pub spent_prices : (w : W) → spent (calls.prices w).world ≡ spent w
  pub spent_debit : (cost : ℕ) (w : W) → spent (calls.debit cost w).world ≤ spent w + cost
  pub spent_read :
      (root segment : ℕ) (w : W) → spent (calls.read_sector root segment w).world ≡ spent w
  pub spent_reset : (w : W) → spent (calls.reset_balance w) ≡ spent w

module _ {W Prices : Type 0} (calls : VerifyCalls W Prices) (laws : SpendLaws calls) where
  open laws use {spent}

  -- Of a number of sectors, after some results: what may be spent, and how many results there are.
  pub record Within (budget done left : ℕ) (w : W) (v : Verified W) : Type 0 where
    pub spent_le : spent v.world ≤ spent w + budget
    pub results_le : length v.results ≤ done + left
    pub all_done : v.result ≡ ok tt → length v.results ≡ done + left

  ends_Within :
      (budget done left : ℕ) (w v : W) (results : List CheckSectorsResult)
      (r : Outcome VerifyError (Unit {0}))
      → spent v ≤ spent w + budget
      → length results ≤ done + left
      → (r ≡ ok tt → ⊥)
      → Within budget done left w (end_verify calls results v r)
  ends_Within budget done left w v results r fits few fails = record {
    spent_le = fits;
    results_le = few;
    all_done = λ e. absurd (fails e);
  }

  module _ (rest : Rest calls) (left : ℕ)
      (goes_on : (budget : ℕ) (was_reset : Bool) (results : List CheckSectorsResult) (w : W)
        → Within budget (length results) left w (rest budget was_reset results w)) where
    next-Within :
        (budget budget' : ℕ) (was_reset : Bool) (results : List CheckSectorsResult)
        (result : CheckSectorsResult) (w v : W)
        → spent v + budget' ≤ spent w + budget
        → Within budget
            (length results)
            (suc left)
            w
            (rest budget' was_reset (results ++ result ∷ []) v)
    next-Within budget budget' was_reset results result w v fits =
        let all = results ++ result ∷ [] in
        let inner = goes_on budget' was_reset all v in
        let size = length-append results (result ∷ []) in
        record {
          spent_le = omega (arith, inner.spent_le);
          results_le = omega (arith, inner.results_le, size);
          all_done = λ e. omega (arith, inner.all_done e, size);
        }

    note_read-Within :
        (budget budget' : ℕ) (was_reset : Bool) (results : List CheckSectorsResult) (w v : W)
        (r : Outcome VerifyError (Unit {0}))
        → spent v + budget' ≤ spent w + budget
        → Within budget
            (length results)
            (suc left)
            w
            (note_read calls rest budget' was_reset results v r)
    unfolding note_read
    note_read-Within budget budget' was_reset results w v r fits =
        elim (Bool-cases (is_not_enough_funds r)) [
          | inr other ↦
              rw other (next-Within budget budget' was_reset results (sector_result r) w v fits)
          | inl poor ↦ elim (Bool-cases was_reset) [
            | inl again ↦
                rw (poor, again)
                  (next-Within budget budget' true results (sector_result r) w v fits)
            | inr first ↦
                rw (poor, first)
                  (next-Within budget budget' true results (sector_result r) w
                    (calls.reset_balance v) (omega (arith, fits, laws.spent_reset v)))
          ]
        ]

    after_read-Within :
        (budget budget' : ℕ) (was_reset : Bool) (results : List CheckSectorsResult) (w v : W)
        (r : Outcome VerifyError (Unit {0}))
        → spent v + budget' ≤ spent w + budget
        → Within budget
            (length results)
            (suc left)
            w
            (after_read calls rest budget' was_reset results v r)
    unfolding after_read
    after_read-Within budget budget' was_reset results w v (ok t) fits =
        note_read-Within budget budget' was_reset results w v (ok t) fits
    after_read-Within budget budget' was_reset results w v panic fits =
        ends_Within budget (length results) (suc left) w v results panic (omega arith) (omega arith)
          (λ e. cc)
    after_read-Within budget budget' was_reset results w v (err x) fits =
        elim (Bool-cases (calls.is_done v)) [
          | inl stopped ↦ rw stopped (
              ends_Within budget (length results) (suc left) w v results (err x) (omega arith)
                (omega arith) (λ e. cc))
          | inr runs ↦ rw runs (note_read-Within budget budget' was_reset results w v (err x) fits)
        ]

    after_debit-Within :
        (root budget budget' : ℕ) (was_reset : Bool) (results : List CheckSectorsResult) (w v : W)
        (r : Outcome VerifyError (Unit {0}))
        → spent v + budget' ≤ spent w + budget
        → Within budget
            (length results)
            (suc left)
            w
            (after_debit calls rest root budget' was_reset results v r)
    unfolding after_debit
    after_debit-Within root budget budget' was_reset results w v (err x) fits =
        ends_Within budget (length results) (suc left) w v results (err x) (omega arith)
          (omega arith) (λ e. cc)
    after_debit-Within root budget budget' was_reset results w v panic fits =
        ends_Within budget (length results) (suc left) w v results panic (omega arith) (omega arith)
          (λ e. cc)
    after_debit-Within root budget budget' was_reset results w v (ok t) fits =
        let r = calls.read_sector root (calls.segment v) v in
        after_read-Within budget budget' was_reset results w r.world r.result
          (omega (arith, fits, laws.spent_read root (calls.segment v) v))

    after_prices-Within :
        (root budget : ℕ) (was_reset : Bool) (results : List CheckSectorsResult) (w v : W)
        (o : Outcome VerifyError Prices)
        → spent v ≡ spent w
        → Within budget
            (length results)
            (suc left)
            w
            (after_prices calls rest root budget was_reset results v o)
    unfolding after_prices
    after_prices-Within root budget was_reset results w v (err x) same =
        elim (Bool-cases (calls.is_done v)) [
          | inl stopped ↦ rw stopped (
              ends_Within budget (length results) (suc left) w v results _ (omega arith)
                (omega arith) (λ e. cc))
          | inr runs ↦ rw runs (
              ends_Within budget (length results) (suc left) w v results _ (omega arith)
                (omega arith) (λ e. cc))
        ]
    after_prices-Within root budget was_reset results w v panic same =
        ends_Within budget (length results) (suc left) w v results panic (omega arith) (omega arith)
          (λ e. cc)
    after_prices-Within root budget was_reset results w v (ok p) same =
        let cost = calls.read_cost p in
        let d = calls.debit cost v in
        elim (Bool-cases (ltb budget cost)) [
          | inl poor ↦ rw poor (
              ends_Within budget (length results) (suc left) w v results _ (omega arith)
                (omega arith) (λ e. cc))
          | inr enough ↦
              let le : cost ≤ budget = ground arith in
              rw enough (
                after_debit-Within root budget (budget - cost) was_reset results w d.world d.result
                  (omega (arith, same, le, laws.spent_debit cost v)))
        ]

  verify_each-Within :
      (roots : List ℕ) (budget : ℕ) (was_reset : Bool) (results : List CheckSectorsResult) (w : W)
      → Within budget
          (length results)
          (length roots)
          w
          (verify_each calls roots budget was_reset results w)
  unfolding verify_each
  verify_each-Within [] budget was_reset results w = record {
    spent_le = omega arith;
    results_le = omega arith;
    all_done = λ e. omega arith;
  }
  verify_each-Within (root ∷ roots) budget was_reset results w =
      let p = calls.prices w in
      after_prices-Within (verify_each calls roots) (length roots) (verify_each-Within roots) root
        budget was_reset results w p.world p.result (laws.spent_prices w)

-- `VerifySectors` debits the service account by no more than its balance at the start; it returns at
-- most one result for each sector, and exactly one for each if it returns no error.
pub verify_sectors-Within :
    {W Prices : Type 0} (calls : VerifyCalls W Prices) (laws : SpendLaws calls) (roots : List ℕ)
    (w : W) (balance : ℕ)
    → calls.balance w ≡ ok balance
    → Within calls laws balance 0 (length roots) w (verify_sectors calls roots w)
unfolding verify_sectors with_budget
verify_sectors-Within calls laws roots w balance known =
    rw known (verify_each-Within calls laws roots balance false [] w)
