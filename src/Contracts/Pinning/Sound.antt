-- ===== src/Contracts/Pinning/Sound.antt =====
-- What `pinSectors` may write to the store.
use indexd.Base.{
  ℕ, ◌≡◌, sym, ◌∙◌, true, false, not, some, List, [], ◌∷◌, contains, ◌==◌, ◌⊎◌, inl, inr, arith,
  Bool-cases, none-ne-some, some_inj, contains-keep,
}
use indexd.Base.Outcome.{ok}
use indexd.Base.Currency.{CurrencyOps}
use indexd.Base.Proto.{Proto}
use indexd.Contracts.Revision.{RevisionStore}
use indexd.Contracts.Pinning.{PinCalls, map_keys, missing}
use indexd.Contracts.Pinning.Laws.{Grows, PinLaws}

contains-map_keys : (xs : List ℕ) (a : ℕ) → contains (map_keys xs) a ≡ true → contains xs a ≡ true
contains-map_keys [] a among = among
contains-map_keys (x ∷ xs) a among =
    let rest = contains-keep (λ y. not (y == x)) (map_keys xs) a in
    let deeper = contains-map_keys xs a in ground (arith, rest, deeper)

-- What is missing was attempted and not appended.
pub contains-missing :
    (tried appended : List ℕ) (a : ℕ)
    → contains (missing tried appended) a ≡ true
    → (contains tried a ≡ true) × (contains appended a ≡ false)
unfolding missing
contains-missing tried appended a among =
    let kept = contains-keep (λ root. not (contains appended root)) (map_keys tried) a in
    let deeper = contains-map_keys tried a in ground (arith, kept, deeper)

module _ {S W Usage Prices : Type 0} (ops : CurrencyOps) (proto : Proto Prices)
    (db : RevisionStore S Usage) (calls : PinCalls S W Usage Prices) (laws : PinLaws db calls)
    (s : S) where
  open laws use {has, refused, lost, pinned_to}

  -- The store differs from what it was at the start only by what the host's answers justify.
  pub record Justified (t : S) (v : W) : Type 0 where
    pub pins : (a k : ℕ) → pinned_to t a ≡ some k → (pinned_to s a ≡ some k) ⊎ (has v k a ≡ true)
    pub losses : (a : ℕ) → lost t a ≡ true → (lost s a ≡ true) ⊎ (refused v a ≡ true)

  pub Justified-later : (t : S) (v u : W) → Justified t v → Grows has refused v u → Justified t u
  Justified-later t v u j later = record {
    pins = λ a k e. elim (j.pins a k e) [
      | inl before ↦ inl before
      | inr there ↦ inr (later.still_has k a there)
    ];
    losses = λ a e. elim (j.losses a e) [
      | inl before ↦ inl before
      | inr answer ↦ inr (later.still_refused a answer)
    ];
  }

  pub Justified-unmarked :
      (t u : S) (v : W)
      → Justified t v
      → ((a : ℕ) → (lost u a ≡ lost t a) × (pinned_to u a ≡ pinned_to t a))
      → Justified u v
  Justified-unmarked t u v j same = record {
    pins = λ a k e. j.pins a k (sym (same a).1 ∙ e);
    losses = λ a e. j.losses a (sym (same a).0 ∙ e);
  }

  pub Justified-mark :
      (l : List ℕ) (t u : S) (v : W)
      → Justified t v
      → calls.mark_sectors_lost l t ≡ ok u
      → ((a : ℕ) → contains l a ≡ true → refused v a ≡ true)
      → Justified u v
  Justified-mark l t u v j went refuses = record {
    pins = λ a k e. elim (laws.marked_pins l t u went a) [
      | inl unpinned ↦ absurd (none-ne-some (sym unpinned ∙ e))
      | inr same ↦ j.pins a k (sym same ∙ e)
    ];
    losses = λ a e. elim (Bool-cases (contains l a)) [
      | inl among ↦ inr (refuses a among)
      | inr other ↦ let marks = laws.marked_lost l t u went a in j.losses a (ground (arith, marks))
    ];
  }

  pub Justified-pin :
      (id : ℕ) (l : List ℕ) (t u : S) (v : W)
      → Justified t v
      → calls.pin_sectors id l t ≡ ok u
      → ((a : ℕ) → contains l a ≡ true → has v id a ≡ true)
      → Justified u v
  Justified-pin id l t u v j went has_it = record {
    pins = λ a k e. elim (laws.pinned_pins id l t u went a) [
      | inl same ↦ j.pins a k (sym same ∙ e)
      | inr fresh ↦
          let same : id ≡ k = some_inj (sym fresh.1 ∙ e) in inr (rw (← same) (has_it a fresh.0))
    ];
    losses = λ a e. j.losses a (laws.pinned_lost id l t u went a e);
  }
