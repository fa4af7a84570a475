-- ===== src/Contracts/Chain/Effects.antt =====
-- What a diff does to what is stored of its contract, said without a transaction.
use indexd.Base.{ℕ, ◌≡◌, Bool, true, false, Option, none, some, List, [], ◌∷◌, ◌==◌, if◌then◌else◌}
use indexd.Contracts.Contract.{pending, active, resolved}
use indexd.Contracts.ChainTx.{Element, Resolution, renewal, Diff, Row, at_key, renewed_row, newest}

-- The change of the row, the element that is written, and whether the element is deleted.
pub record Effect : Type 0 where
  pub on_row : Row → Row
  pub written : Option Element
  pub removed : Bool

abbrev pub resolved_row : (ℕ → Bool) → ℕ → Resolution → Row → Row
resolved_row known renewed_id renewal row =
    renewed_row known (some renewed_id) (record row { state = resolved })
resolved_row known renewed_id _ row = record row { state = resolved }

abbrev pub restored_row : Resolution → Row → Row
restored_row renewal row = record { state = active; renewed_to = none }
restored_row _ row = record row { state = active }

-- A contract is formed, resolved or revised.
unfoldable pub applied_case : (ℕ → Bool) → (ℕ → ℕ) → Diff → Bool → Option Resolution → Effect
applied_case known v2_renewal_id diff true _ = record {
  on_row = λ row. record row { state = active };
  written = some diff.element;
  removed = false;
}
applied_case known v2_renewal_id diff false (some r) = record {
  on_row = resolved_row known (v2_renewal_id diff.element.id) r;
  written = none;
  removed = true;
}
applied_case known v2_renewal_id diff false none = record {
  on_row = λ row. row;
  written = some (newest diff.revision_element diff.element);
  removed = false;
}

abbrev pub apply_effect : (ℕ → Bool) → (ℕ → ℕ) → Diff → Effect
apply_effect known v2_renewal_id diff =
    applied_case known v2_renewal_id diff diff.created diff.resolution

-- A contract is no longer formed, resolved or revised.
unfoldable pub reverted_case : Diff → Bool → Option Resolution → Effect
reverted_case diff true _ = record {
  on_row = λ row. record row { state = pending };
  written = none;
  removed = true;
}
reverted_case diff false (some r) = record {
  on_row = restored_row r;
  written = some diff.element;
  removed = false;
}
reverted_case diff false none = record {
  on_row = λ row. row;
  written = some diff.element;
  removed = false;
}

abbrev pub revert_effect : Diff → Effect
revert_effect diff = reverted_case diff diff.created diff.resolution

-- The diff of a contract.
unfoldable pub diff_of : List Diff → ℕ → Option Diff
diff_of [] k = none
diff_of (d ∷ diffs) k = let rest = diff_of diffs k in if k == d.element.id then some d else rest

-- Each contract has one diff at most, and a revision is one of the diff's contract.
unfoldable pub OnePerContract : List Diff → Type 0
unfolding diff_of
OnePerContract [] = Unit
OnePerContract (d ∷ diffs) =
    (diff_of diffs d.element.id ≡ none)
    × ((newest d.revision_element d.element).id ≡ d.element.id)
    × OnePerContract diffs

abbrev pub or_else : {A : Type 0} → Option A → Option A → Option A
or_else none a = a
or_else (some b) a = some b

abbrev pub no_effect : Effect
no_effect = record { on_row = λ row. row; written = none; removed = false }

-- The effect on a contract that may have no diff.
abbrev pub effect_at : (Diff → Effect) → Option Diff → Effect
effect_at effect none = no_effect
effect_at effect (some d) = effect d

abbrev pub row_after : Effect → Option Row → Option Row
row_after effect row = at_key effect.on_row row

-- Of an element, if its contract is known.
abbrev pub element_after : Bool → Effect → Option Element → Option Element
element_after known effect e =
    if known then (if effect.removed then none else or_else effect.written e) else e
