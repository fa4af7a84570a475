-- ===== src/Client/Provider/Picks/Write.antt =====
-- What `PickWrite` picks, and what it leaves.
use mathlib.Core.List.{append_assoc, append-nil}
use indexd.Base.{
  ℕ, zero, suc, ◌+◌, ◌≡◌, refl, sym, ap, true, false, some, List, [], ◌∷◌, ◌++◌, length, set, take,
  get_elem?, count, ◌==◌, if◌then◌else◌, All, All-append, arith, Bool-cases, inl, inr, ==_iff,
}
use indexd.Client.Provider.{Floats}
use indexd.Client.Provider.Picks.Order.{ahead_trans, ahead_irrefl}
use indexd.Client.Provider.Picks.{
  Provider, Picked, metric, ahead, best_from, last_of, add_inflight_write, pick_write,
}

-- The last element taken away.
count-last :
    (d : ℕ) (rest : List ℕ) (k : ℕ)
    → count k (d ∷ rest)
      ≡ count k (take (length rest) (d ∷ rest)) + (if k == last_of d rest then 1 else 0)
unfolding last_of
count-last d [] k = omega arith
count-last d (e ∷ rest) k = omega (arith, count-last e rest k)

-- The last element in the place of another one.
count-swap :
    (c : ℕ) (rest : List ℕ) (j x k : ℕ)
    → get_elem? (c ∷ rest) j ≡ some x
    → count k (c ∷ rest)
      ≡ count k (take (length rest) (set (c ∷ rest) j (last_of c rest))) + (if k == x then 1 else 0)
unfolding last_of
count-swap c [] zero x k e = ground arith
count-swap c [] (suc j) x k e = cc
count-swap c (d ∷ rest) zero x k e = ground (arith, count-last d rest k)
count-swap c (d ∷ rest) (suc j) x k e = ground (arith, count-swap d rest j x k)

module _ (floats : Floats) (now : ℕ) (p : Provider floats) where
  -- None of the hosts sorts ahead of the given one.
  abbrev pub Unbeaten : ℕ → List ℕ → Type 0
  Unbeaten h hosts = All (λ d. ahead floats now p d h ≡ false) hosts

  Unbeaten-better :
      (b b' : ℕ) (hosts : List ℕ)
      → ahead floats now p b' b ≡ true
      → Unbeaten b hosts
      → Unbeaten b' hosts
  Unbeaten-better b b' [] better unbeaten = tt
  Unbeaten-better b b' (d ∷ hosts) better unbeaten = (
    elim (Bool-cases (ahead floats now p d b')) [
      | inl t ↦ absurd (cc (ahead_trans floats now p d b' b t better, unbeaten.0))
      | inr f ↦ f
    ],
    Unbeaten-better b b' hosts better unbeaten.1,
  )

  length-append_one : (xs : List ℕ) (x : ℕ) → length (xs ++ x ∷ []) ≡ suc (length xs)
  length-append_one [] x = refl
  length-append_one (y ∷ xs) x = ap suc (length-append_one xs x)

  get_elem?-last : (xs : List ℕ) (x : ℕ) → get_elem? (xs ++ x ∷ []) (length xs) ≡ some x
  get_elem?-last [] x = refl
  get_elem?-last (y ∷ xs) x = get_elem?-last xs x

  get_elem?-append :
      (xs : List ℕ) (x j v : ℕ) → get_elem? xs j ≡ some v → get_elem? (xs ++ x ∷ []) j ≡ some v
  get_elem?-append [] x j v e = cc
  get_elem?-append (y ∷ xs) x zero v e = e
  get_elem?-append (y ∷ xs) x (suc j) v e = get_elem?-append xs x j v e

  -- After the hosts `before`, of which the best one is known, the loop finds the best one of all.
  best_from-Unbeaten :
      (rest before : List ℕ) (best best_key : ℕ)
      → get_elem? before best ≡ some best_key
      → Unbeaten best_key before
      → let r = best_from floats now p best best_key (length before) rest in
        (get_elem? (before ++ rest) r.0 ≡ some r.1) × Unbeaten r.1 (before ++ rest)
  unfolding best_from
  best_from-Unbeaten [] before best best_key e unbeaten = rw append-nil (e, unbeaten)
  best_from-Unbeaten (c ∷ rest) before best best_key e unbeaten =
      let grown : before ++ c ∷ rest ≡ (before ++ c ∷ []) ++ rest =
        sym (append_assoc before (c ∷ []) rest) in
      elim (Bool-cases (ahead floats now p c best_key)) [
        | inl t ↦
            rw (t, grown, sym (length-append_one before c))
              (best_from-Unbeaten rest (before ++ c ∷ []) (length before) c
                (get_elem?-last before c)
                (All-append _ before (c ∷ []) (Unbeaten-better best_key c before t unbeaten)
                  (ahead_irrefl floats now p c, tt)))
        | inr f ↦
            rw (f, grown, sym (length-append_one before c))
              (best_from-Unbeaten rest (before ++ c ∷ []) best best_key
                (get_elem?-append before c best best_key e)
                (All-append _ before (c ∷ []) unbeaten (f, tt)))
      ]

  -- Of any candidates, one is picked that no other one sorts ahead of; what remains are the candidates
  -- less the picked one, in some order; and a write slot is reserved on it, and on no other host.
  pub pick_write_lem :
      (c : ℕ) (rest : List ℕ)
      → (r : Picked floats) × (pick_write floats now p (c ∷ rest) ≡ some r)
        × Unbeaten r.host (c ∷ rest)
        × ((k : ℕ) → count k (c ∷ rest) ≡ count k r.remaining + (if k == r.host then 1 else 0))
        × ((k : ℕ)
            → (metric floats r.provider k).inflight_writes
              ≡ (metric floats p k).inflight_writes + (if k == r.host then 1 else 0))
  unfolding pick_write
  pick_write_lem c rest =
      let found = best_from-Unbeaten rest (c ∷ []) 0 c refl (ahead_irrefl floats now p c, tt) in
      let best = best_from floats now p 0 c 1 rest in
      (
        record {
          host = best.1;
          remaining = take (length rest) (set (c ∷ rest) best.0 (last_of c rest));
          provider = add_inflight_write floats p best.1;
        },
        refl,
        found.1,
        λ k. count-swap c rest best.0 best.1 k found.0,
        λ k. elim (Bool-cases (k == best.1)) [
          | inl same ↦ let here : k ≡ best.1 = (==_iff k best.1).0 same in rw (same, here) refl
          | inr other ↦ rw other (omega arith)
        ],
      )
