-- ===== src/Contracts/Chain/Undo.antt =====
-- An effect of a diff and then its opposite, on what is stored of a contract.
use indexd.Base.{ℕ, ◌≡◌, refl, sym, ap, ◌∙◌, Bool, true, false, Option, none, some}
use indexd.Contracts.Contract.{pending, active}
use indexd.Contracts.ChainTx.{
  Element, Resolution, renewal, storage_proof, expiration, Diff, Row, is_some, at_key, prove,
}
use indexd.Contracts.Chain.Effects.{
  no_effect, applied_case, apply_effect, reverted_case, revert_effect, effect_at, row_after,
  element_after,
}

-- An element less its proof.
abbrev pub body : Element → Element
body e = record e { state_element = 0 }

-- What is stored of a contract before a diff of it is applied: a contract that is formed is pending
-- and has no element; one that is resolved is active; and the diff shows the element that is stored,
-- which may have another proof. A contract that is renewed may have its renewal stored already.
unfoldable pub Before : Bool → Option Resolution → Element → Row → Option Element → Type 0
Before true _ shown row e = (row.state ≡ pending) × (e ≡ none)
Before false (some _) shown row e = (row.state ≡ active) × (at_key body e ≡ some (body shown))
Before false none shown row e = at_key body e ≡ some (body shown)

-- What comes back of a row: a contract that the block renews has lost its renewal.
unfoldable pub less_renewal : Bool → Option Resolution → Row → Row
less_renewal true r row = row
less_renewal false (some renewal) row = record row { renewed_to = none }
less_renewal false (some storage_proof) row = row
less_renewal false (some expiration) row = row
less_renewal false none row = row

abbrev pub less_renewal_at : Option Diff → Row → Row
less_renewal_at none row = row
less_renewal_at (some d) row = less_renewal d.created d.resolution row

body-prove : (f : ℕ → ℕ) (o : Option Element) → at_key body (at_key (prove f) o) ≡ at_key body o
body-prove f none = refl
body-prove f (some e) = refl

row-restored :
    (known : ℕ → Bool) (v2_renewal_id : ℕ → ℕ) (d : Diff) (created : Bool)
    (resolution : Option Resolution) (row : Row) (e : Option Element)
    → Before created resolution d.element row e
    → (reverted_case d created resolution).on_row
        ((applied_case known v2_renewal_id d created resolution).on_row row)
      ≡ less_renewal created resolution row
unfolding Before applied_case reverted_case less_renewal
row-restored known v2_renewal_id d true r row e (state, absent) = rw (sym state) refl
row-restored known v2_renewal_id d false (some renewal) row e (state, shown) = rw (sym state) refl
row-restored known v2_renewal_id d false (some storage_proof) row e (state, shown) =
    rw (sym state) refl
row-restored known v2_renewal_id d false (some expiration) row e (state, shown) =
    rw (sym state) refl
row-restored known v2_renewal_id d false none row e shown = refl

element-restored :
    (d : Diff) (created : Bool) (resolution : Option Resolution) (row : Row) (e x : Option Element)
    → Before created resolution d.element row e
    → at_key body (element_after true (reverted_case d created resolution) x) ≡ at_key body e
unfolding Before reverted_case
element-restored d true r row e x (state, absent) = rw absent refl
element-restored d false (some renewal) row e x (state, shown) = sym shown
element-restored d false (some storage_proof) row e x (state, shown) = sym shown
element-restored d false (some expiration) row e x (state, shown) = sym shown
element-restored d false none row e x shown = sym shown

nothing-row : (row : Option Row) → row_after no_effect row ≡ row
nothing-row none = refl
nothing-row (some row) = refl

nothing-element : (is_in : Bool) (e : Option Element) → element_after is_in no_effect e ≡ e
nothing-element true e = refl
nothing-element false e = refl

module _ (known : ℕ → Bool) (v2_renewal_id : ℕ → ℕ) where
  -- A diff that fits what is stored of its contract, if the contract is stored.
  abbrev pub Fits : Option Diff → Option Row → Option Element → Type 0
  Fits o stored e =
      (d : Diff) (row : Row)
      → o ≡ some d
      → stored ≡ some row
      → Before d.created d.resolution d.element row e

  pub rows-restored :
      (o : Option Diff) (stored : Option Row) (e : Option Element)
      → Fits o stored e
      → row_after
          (effect_at revert_effect o)
          (row_after (effect_at (apply_effect known v2_renewal_id) o) stored)
        ≡ at_key (less_renewal_at o) stored
  rows-restored none stored e fits = ap (row_after no_effect) (nothing-row stored)
  rows-restored (some d) none e fits = refl
  rows-restored (some d) (some row) e fits =
      ap some
        (row-restored known v2_renewal_id d d.created d.resolution row e (fits d row refl refl))

  pub elements-restored :
      (f g : ℕ → ℕ) (o : Option Diff) (stored : Option Row) (e : Option Element)
      → Fits o stored e
      → at_key body (
          at_key (prove g) (
            element_after (is_some stored) (effect_at revert_effect o) (
              at_key (prove f) (
                element_after
                  (is_some stored)
                  (effect_at (apply_effect known v2_renewal_id) o)
                  e))))
        ≡ at_key body e
  elements-restored f g none stored e fits =
      body-prove g _
      ∙ ap (at_key body) (nothing-element (is_some stored) _)
      ∙ body-prove f _
      ∙ ap (at_key body) (nothing-element (is_some stored) e)
  elements-restored f g (some d) none e fits = body-prove g _ ∙ body-prove f e
  elements-restored f g (some d) (some row) e fits =
      body-prove g _ ∙ element-restored d d.created d.resolution row e _ (fits d row refl refl)
