-- ===== src/Alerts/Pages.antt =====
-- The pages of `Alerts`.
use Prim.Native.Nat.add
use indexd.Base.{
  ℕ, zero, suc, ◌+◌, ◌<◌, ◌≤◌, ◌≡◌, inl, inr, refl, ap, sym, Option, List, [], ◌∷◌, ◌++◌, length,
  take, drop, keep, ltb, leb, arith, Bool-cases, take-append_slice,
}
use indexd.Base.Outcome.{ok}
use indexd.Base.Int.{pos}
use indexd.Alerts.{Alert, Manager, alerts, page, wanted, validate_offset_limit}

drop_all : {A : Type 0} → (n : ℕ) (xs : List A) → length xs ≤ n → drop n xs ≡ []
drop_all zero [] h = refl
drop_all zero (x ∷ xs) h = elim h [ ]
drop_all (suc n) [] h = refl
drop_all (suc n) (x ∷ xs) h = drop_all n xs (omega arith)

take_all : {A : Type 0} → (n : ℕ) (xs : List A) → length xs ≤ n → take n xs ≡ xs
take_all zero [] h = refl
take_all zero (x ∷ xs) h = elim h [ ]
take_all (suc n) [] h = refl
take_all (suc n) (x ∷ xs) h = rw (take_all n xs (omega arith))

drop-drop : {A : Type 0} → (m n : ℕ) (xs : List A) → drop n (drop m xs) ≡ drop (m + n) xs
drop-drop zero n xs = rw add.zero
drop-drop (suc m) zero [] = rw add.suc
drop-drop (suc m) (suc n) [] = rw add.suc
drop-drop (suc m) n (x ∷ xs) = rw (add.suc, drop-drop m n xs)

take_nil : {A : Type 0} → (n : ℕ) → take {A = A} n [] ≡ []
take_nil zero = refl
take_nil (suc n) = refl

page_lem :
    (offset limit : ℕ) (xs : List Alert)
    → 0 < limit
    → page offset limit xs ≡ take limit (drop offset xs)
unfolding page
page_lem offset limit xs h = elim (Bool-cases (leb (length xs) offset)) [
  | inl t ↦ rw (t, drop_all offset xs (ground arith), take_nil limit)
  | inr f ↦ elim (Bool-cases (ltb limit (length (drop offset xs)))) [
    | inl t ↦ ground arith
    | inr g ↦ ground (arith, take_all limit (drop offset xs) (ground arith))
  ]
]

join :
    (offset l k : ℕ) (xs : List Alert)
    → 0 < l
    → page offset (l + k) xs ≡ take l (drop offset xs) ++ take k (drop (offset + l) xs)
join offset l k xs h = rw (
  page_lem offset (l + k) xs (omega arith),
  sym (drop-drop offset l xs),
  take-append_slice l k (drop offset xs),
)

-- Consecutive pages join: whatever order `sort` gives and whatever severity is wanted, a page of
-- `limit` alerts and the page of `limit_2` alerts that starts where it ends are both answered, and
-- make up, one after the other, the page of `limit + limit_2` alerts.
pub alerts-append :
    (sort : List Alert → List Alert) (m : Manager) (offset limit limit_2 : ℕ) (severity : Option ℕ)
    → 0 < limit
    → 0 < limit_2
    → (xs : List Alert) × (ys : List Alert) × (alerts sort m (pos offset) (pos limit) severity
        ≡ ok xs)
      × (alerts sort m (pos (offset + limit)) (pos limit_2) severity ≡ ok ys)
      × (alerts sort m (pos offset) (pos (limit + limit_2)) severity ≡ ok (xs ++ ys))
unfolding alerts validate_offset_limit
alerts-append sort m offset limit limit_2 severity h k =
    let listed = sort (keep (wanted severity) m) in
    (
      take limit (drop offset listed),
      take limit_2 (drop (offset + limit) listed),
      ap ok (page_lem offset limit listed h),
      ap ok (page_lem (offset + limit) limit_2 listed k),
      ap ok (join offset limit limit_2 listed h),
    )
