-- ===== src/Slabs/Verifier/Tests.antt =====
-- Verifying four sectors in memory, and the theorem at them.
use indexd.Base.{ℕ, ◌+◌, ◌≡◌, refl, false, [], ◌∷◌, ◌==◌, if◌then◌else◌, arith}
use indexd.Base.Outcome.{ok, err}
use indexd.Slabs.Verifier.{
  sector_lost, sector_failed, sector_success, lost_sector, not_enough_funds, insufficient_balance,
  VerifyCalls, verify_sectors,
}
use indexd.Slabs.Verifier.Budget.{SpendLaws, Within, verify_sectors-Within}

-- The world is what was spent. The host has lost sector 2, and is not paid for sector 3.
abbrev calls : VerifyCalls ℕ ℕ
calls = record {
  is_done = λ w. false;
  balance = λ w. ok 35;
  prices = λ w. record { world = w; result = ok 10 };
  read_cost = λ p. p;
  debit = λ cost w. record { world = w + cost; result = ok tt };
  segment = λ w. 0;
  read_sector = λ root segment w. record {
    world = w;
    result =
        if root == 2 then err lost_sector else if root == 3 then err not_enough_funds else ok tt;
  };
  reset_balance = λ w. w;
}

laws : SpendLaws calls
laws = record {
  spent = λ w. w;
  spent_prices = λ w. refl;
  spent_debit = λ cost w. omega arith;
  spent_read = λ root segment w. refl;
  spent_reset = λ w. refl;
}

-- The balance pays for three sectors.
verifies_three :
    let v = verify_sectors calls (1 ∷ 2 ∷ 3 ∷ 4 ∷ []) 0 in
    (v.results ≡ sector_success ∷ sector_lost ∷ sector_failed ∷ [])
    × (v.result ≡ err insufficient_balance)
    × (v.world ≡ 30)
unfolding verify_sectors
verifies_three = (refl, refl, refl)

verify_sectors-Within_example :
    Within calls laws 35 0 4 0 (verify_sectors calls (1 ∷ 2 ∷ 3 ∷ 4 ∷ []) 0)
verify_sectors-Within_example = verify_sectors-Within calls laws (1 ∷ 2 ∷ 3 ∷ 4 ∷ []) 0 35 refl
