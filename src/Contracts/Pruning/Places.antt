-- ===== src/Contracts/Pruning/Places.antt =====
-- The sectors of a contract by their places: what a list of indices picks out.
use indexd.Base.{
  ℕ, zero, suc, ◌+◌, ◌≡◌, ◌≤◌, ◌<◌, refl, ap, sym, ◌∙◌, true, false, List, [], ◌∷◌, ◌++◌, length,
  take, drop, contains, keep, ◌==◌, if◌then◌else◌, arith, Bool-cases, inl, inr, length-take,
  length-drop, take-append-drop,
}
use indexd.Base.Words.{add64, u64_mod}
use indexd.Contracts.Pruning.{prunable_indices}

-- The elements whose places, counted from the first number, are among the indices.
abbrev pub picked_from : ℕ → List ℕ → List ℕ → List ℕ
picked_from j indices [] = []
picked_from j indices (x ∷ xs) =
    if contains indices j
    then x ∷ picked_from (suc j) indices xs
    else picked_from (suc j) indices xs

-- Indices that ascend from the first number and stay below the second.
abbrev pub Ascending : ℕ → ℕ → List ℕ → Type 0
Ascending lo hi [] = Unit
Ascending lo hi (i ∷ indices) = (lo ≤ i) × (i < hi) × Ascending (suc i) hi indices

-- `prunable_indices` where no index wraps around.
places : List ℕ → ℕ → List ℕ → List ℕ
places prunable j [] = []
places prunable j (root ∷ roots) =
    if contains prunable root
    then j ∷ places prunable (suc j) roots
    else places prunable (suc j) roots

prunable_indices-places :
    (prunable : List ℕ) (offset i j : ℕ) (roots : List ℕ)
    → j ≡ offset + i
    → j + length roots ≤ u64_mod
    → prunable_indices prunable offset i roots ≡ places prunable j roots
unfolding prunable_indices places
prunable_indices-places prunable offset i j [] e fits = refl
prunable_indices-places prunable offset i j (root ∷ roots) e fits =
    let rest =
      prunable_indices-places prunable offset (i + 1) (suc j) roots (omega arith) (omega arith) in
    let here : add64 offset i ≡ j = omega arith in rw (rest, here) refl

Ascending-weaken :
    (lo lo' hi : ℕ) (indices : List ℕ)
    → lo ≤ lo'
    → Ascending lo' hi indices
    → Ascending lo hi indices
Ascending-weaken lo lo' hi [] le up = tt
Ascending-weaken lo lo' hi (i ∷ indices) le up = (omega (arith, up.0), up.1, up.2)

Ascending-contains :
    (lo hi : ℕ) (indices : List ℕ) (k : ℕ)
    → Ascending lo hi indices
    → k < lo
    → contains indices k ≡ false
Ascending-contains lo hi [] k up below = refl
Ascending-contains lo hi (i ∷ indices) k up below =
    let rest = Ascending-contains (suc i) hi indices k up.2 (omega (arith, up.0)) in
    let first : (k == i) ≡ false = ground (arith, up.0) in rw (first, rest) refl

places-Ascending :
    (prunable : List ℕ) (j hi : ℕ) (roots : List ℕ)
    → hi ≡ j + length roots
    → Ascending j hi (places prunable j roots)
unfolding places
places-Ascending prunable j hi [] e = tt
places-Ascending prunable j hi (root ∷ roots) e =
    let rest = places-Ascending prunable (suc j) hi roots (omega arith) in
    elim (Bool-cases (contains prunable root)) [
      | inl t ↦ rw t (omega arith, omega arith, rest)
      | inr f ↦
          rw f (Ascending-weaken j (suc j) hi (places prunable (suc j) roots) (omega arith) rest)
    ]

-- An index does not matter for what stands after it.
picked_from-skip :
    (i : ℕ) (indices : List ℕ) (j : ℕ) (xs : List ℕ)
    → i < j
    → picked_from j (i ∷ indices) xs ≡ picked_from j indices xs
picked_from-skip i indices j [] past = refl
picked_from-skip i indices j (x ∷ xs) past =
    let first : (j == i) ≡ false = ground arith in
    rw (first, picked_from-skip i indices (suc j) xs (omega arith)) refl

picked_from-nil : (j : ℕ) (xs : List ℕ) → picked_from j [] xs ≡ []
picked_from-nil j [] = refl
picked_from-nil j (x ∷ xs) = picked_from-nil (suc j) xs

-- Nothing is picked before the first index.
picked_from-drop :
    (n j hi : ℕ) (indices xs : List ℕ)
    → Ascending (n + j) hi indices
    → picked_from j indices xs ≡ picked_from (n + j) indices (drop n xs)
picked_from-drop zero j hi indices xs up = let same : 0 + j ≡ j = omega arith in rw same refl
picked_from-drop (suc n) j hi indices [] up = refl
picked_from-drop (suc n) j hi indices (x ∷ xs) up =
    let before = Ascending-contains (suc n + j) hi indices j up (omega arith) in
    let same : n + suc j ≡ suc n + j = omega arith in
    let up' : Ascending (n + suc j) hi indices = rw same up in
    rw before (
      picked_from-drop n (suc j) hi indices xs up'
      ∙ ap (λ m. picked_from m indices (drop n xs)) same)

places-picks :
    (prunable : List ℕ) (j : ℕ) (roots rest : List ℕ)
    → picked_from j (places prunable j roots) (roots ++ rest) ≡ keep (contains prunable) roots
unfolding places
places-picks prunable j [] rest = picked_from-nil j rest
places-picks prunable j (root ∷ roots) rest = elim (Bool-cases (contains prunable root)) [
  | inl t ↦
      let here : (j == j) ≡ true = ground arith in
      rw
        (
          t,
          here,
          picked_from-skip j (places prunable (suc j) roots) (suc j) (roots ++ rest) (omega arith),
          places-picks prunable (suc j) roots rest,
        )
        refl
  | inr f ↦
      let up = places-Ascending prunable (suc j) (suc j + length roots) roots refl in
      let not_here =
        Ascending-contains (suc j) _ (places prunable (suc j) roots) j up (omega arith) in
      rw (f, not_here, places-picks prunable (suc j) roots rest) refl
]

length-places :
    (prunable : List ℕ) (j : ℕ) (roots : List ℕ)
    → length (places prunable j roots) ≡ length (keep (contains prunable) roots)
unfolding places
length-places prunable j [] = refl
length-places prunable j (root ∷ roots) = ground (arith, length-places prunable (suc j) roots)

indices-places :
    (prunable : List ℕ) (offset : ℕ) (roots : List ℕ)
    → (0 < length roots → offset + length roots ≤ u64_mod)
    → prunable_indices prunable offset 0 roots ≡ places prunable offset roots
unfolding prunable_indices places
indices-places prunable offset [] fits = refl
indices-places prunable offset (root ∷ roots) fits =
    prunable_indices-places prunable offset 0 offset (root ∷ roots) (omega arith)
      (fits (omega arith))

-- The indices found in a window of the sectors.
module _ (prunable : List ℕ) (offset n : ℕ) (sectors : List ℕ)
    (fits : length sectors ≤ u64_mod) where
  abbrev pub window : List ℕ
  window = take n (drop offset sectors)

  window-places : prunable_indices prunable offset 0 window ≡ places prunable offset window
  window-places =
      let long = length-take n (drop offset sectors) in
      indices-places prunable offset window
        (λ some_roots. omega (arith, length-drop offset sectors))

  -- They pick the prunable roots of the window.
  pub indices-picks :
      picked_from 0 (prunable_indices prunable offset 0 window) sectors
      ≡ keep (contains prunable) window
  indices-picks =
      let up = places-Ascending prunable offset (offset + length window) window refl in
      let parts = take-append-drop n (drop offset sectors) in
      let start_pruning : offset + 0 ≡ offset = omega arith in
      let up' : Ascending (offset + 0) (offset + length window) (places prunable offset window) =
        rw start_pruning up in
      rw
        (
          window-places,
          picked_from-drop offset 0 (offset + length window) (places prunable offset window) sectors
              up',
          start_pruning,
        )
        (ap (picked_from offset (places prunable offset window)) (sym parts)
          ∙ places-picks prunable offset window (drop n (drop offset sectors)))

  pub length-indices :
      length (prunable_indices prunable offset 0 window) ≡ length (keep (contains prunable) window)
  length-indices = rw window-places (length-places prunable offset window)
