-- ===== src/Contracts/Chain/Loop.antt =====
-- The loop over the diffs, for any switch that has an effect on the diff's contract alone.
use indexd.Base.{
  ℕ, ◌≡◌, refl, sym, ap, subst, ◌∙◌, Bool, true, false, ◌&&◌, ◌||◌, Option, none, some, List, [],
  ◌∷◌, contains, ◌==◌, if◌then◌else◌, Bool-cases, inl, inr, ==_iff, or_false, and_false, if_same,
}
use indexd.Base.Outcome.{ok, ok_inj, value_of}
use indexd.Contracts.ChainTx.{Element, Diff, UpdateTx, is_some, at_key, latest, newest}
use indexd.Contracts.Chain.{CachedTx, Progress, is_known, Handler, visit_if_known, visit, visit_all}
use indexd.Contracts.Chain.Cache.{Sound, is_known_lem}
use indexd.Contracts.Chain.Effects.{Effect, no_effect, diff_of, OnePerContract, or_else, effect_at}

pub is_some-at_key : {A : Type 0} (f : A → A) (o : Option A) → is_some (at_key f o) ≡ is_some o
is_some-at_key f none = refl
is_some-at_key f (some a) = refl

at_key-none : {A : Type 0} (f : A → A) (o : Option A) → is_some o ≡ false → at_key f o ≡ o
at_key-none f none e = refl
at_key-none f (some a) e = cc

pub at_key-same : {A : Type 0} (o : Option A) → at_key (λ a. a) o ≡ o
at_key-same none = refl
at_key-same (some a) = refl

module _ {S Err : Type 0} (ops : UpdateTx S Err) (v2_renewal_id : ℕ → ℕ) (known : ℕ → Bool) where
  open ops use {row_of, element_of}

  -- From one state of the loop to another, a contract has had an effect.
  abbrev pub EffectAt : ℕ → Effect → Progress S → Progress S → Type 0
  EffectAt k effect p q =
      (row_of q.tx.db k ≡ at_key effect.on_row (row_of p.tx.db k))
      × (element_of q.tx.db k ≡ element_of p.tx.db k)
      × ((e : Option Element)
          → latest q.updated k e ≡ (
              if known k
              then or_else effect.written (latest p.updated k e)
              else latest p.updated k e))
      × (contains q.removed k ≡ (contains p.removed k || known k && effect.removed))

  abbrev pub Effects : (ℕ → Effect) → Progress S → Progress S → Type 0
  Effects effect p q = (k : ℕ) → EffectAt k (effect k) p q

  nothing_done : (p : Progress S) → Effects (λ k. no_effect) p p
  nothing_done p k = (
    sym (at_key-same (row_of p.tx.db k)),
    refl,
    λ e. sym (if_same (known k) (latest p.updated k e)),
    rw (and_false (known k)) (sym (or_false (contains p.removed k))),
  )

  then_nothing :
      (k : ℕ) (effect : Effect) (p q r : Progress S)
      → EffectAt k effect p q
      → EffectAt k no_effect q r
      → EffectAt k effect p r
  then_nothing k effect p q r (row, element, updated, removed)
        (row', element', updated', removed') =
      (
        row' ∙ at_key-same (row_of q.tx.db k) ∙ row,
        element' ∙ element,
        λ e. updated' e ∙ if_same (known k) (latest q.updated k e) ∙ updated e,
        removed'
            ∙ ap (λ b. contains q.removed k || b) (and_false (known k))
            ∙ or_false (contains q.removed k)
            ∙ removed,
      )

  nothing_then :
      (k : ℕ) (effect : Effect) (p q r : Progress S)
      → EffectAt k no_effect p q
      → EffectAt k effect q r
      → EffectAt k effect p r
  nothing_then k effect p q r (row, element, updated, removed)
        (row', element', updated', removed') =
      let same_row = row ∙ at_key-same (row_of p.tx.db k) in
      let same_removed =
        removed
        ∙ ap (λ b. contains p.removed k || b) (and_false (known k))
        ∙ or_false (contains p.removed k) in
      (
        row' ∙ ap (at_key effect.on_row) same_row,
        element' ∙ element,
        λ e.
            let same = updated e ∙ if_same (known k) (latest p.updated k e) in
            updated' e ∙ ap (λ l. if known k then or_else effect.written l else l) same,
        removed' ∙ ap (λ b. b || known k && effect.removed) same_removed,
      )

  -- A switch leaves the cache as it is, and has an effect on the contract of its diff.
  abbrev pub HasEffect : (Diff → Effect) → Handler ops v2_renewal_id → Type 0
  HasEffect effect handle =
      (d : Diff) (p q : Progress S)
      → Sound ops v2_renewal_id known p.tx
      → known d.element.id ≡ true
      → (newest d.revision_element d.element).id ≡ d.element.id
      → handle d p ≡ ok q
      → Sound ops v2_renewal_id known q.tx
        × Effects (λ k. if k == d.element.id then effect d else no_effect) p q

  module _ (effect : Diff → Effect) (handle : Handler ops v2_renewal_id)
      (has_effect : HasEffect effect handle) where
    visit_if_known-Effects :
        (d : Diff) (p q : Progress S) (b : Bool) (tx : CachedTx S)
        → Sound ops v2_renewal_id known tx
        → tx.db ≡ p.tx.db
        → b ≡ known d.element.id
        → (newest d.revision_element d.element).id ≡ d.element.id
        → visit_if_known ops v2_renewal_id handle d p (b, tx) ≡ ok q
        → Sound ops v2_renewal_id known q.tx
          × Effects (λ k. if k == d.element.id then effect d else no_effect) p q
    unfolding visit_if_known
    visit_if_known-Effects d p q true tx sound same truth own went =
        let (s, e) = has_effect d (record p { tx = tx }) q sound (sym truth) own went in
        (s, λ k. rw (sym same) (e k))
    visit_if_known-Effects d p q false tx sound same truth own went =
        let there = ok_inj went in
        rw (← there) (
          sound,
          λ k. elim (Bool-cases (k == d.element.id)) [
            | inl here ↦
                let known_none : known k ≡ false = cc ((==_iff k d.element.id).0 here, truth) in
                rw (here, same, known_none)
                  (
                    sym (
                        at_key-none _ (row_of p.tx.db k)
                          (ap (λ s. is_some (row_of s k)) (sym same) ∙ (sound k).0 ∙ known_none)),
                    refl,
                    λ e. refl,
                    sym (or_false (contains p.removed k)),
                  )
            | inr other ↦ rw (other, same) (nothing_done p k)
          ],
        )

    visit-Effects :
        (d : Diff) (p q : Progress S)
        → Sound ops v2_renewal_id known p.tx
        → (newest d.revision_element d.element).id ≡ d.element.id
        → visit ops v2_renewal_id handle d p ≡ ok q
        → Sound ops v2_renewal_id known q.tx
          × Effects (λ k. if k == d.element.id then effect d else no_effect) p q
    unfolding visit
    visit-Effects d p q sound own went =
        let ((b, tx), asked, rest) =
          value_of (visit_if_known ops v2_renewal_id handle d p)
            (is_known ops v2_renewal_id p.tx d.element.id) went in
        let (truth, same, still) =
          is_known_lem ops v2_renewal_id known p.tx d.element.id b tx sound asked in
        visit_if_known-Effects d p q b tx still same truth own rest

    pub visit_all-Effects :
        (diffs : List Diff) (p q : Progress S)
        → Sound ops v2_renewal_id known p.tx
        → OnePerContract diffs
        → visit_all ops v2_renewal_id handle diffs p ≡ ok q
        → Sound ops v2_renewal_id known q.tx × Effects (λ k. effect_at effect (diff_of diffs k)) p q
    unfolding visit_all OnePerContract diff_of
    visit_all-Effects [] p q sound one went = rw (← ok_inj went) (sound, nothing_done p)
    visit_all-Effects (d ∷ diffs) p q sound (fresh, own, one) went =
        let (m, first, rest) =
          value_of (visit_all ops v2_renewal_id handle diffs) (visit ops v2_renewal_id handle d p)
            went in
        let (still, e1) = visit-Effects d p m sound own first in
        let (end, e2) = visit_all-Effects diffs m q still one rest in
        (
          end,
          λ k. elim (Bool-cases (k == d.element.id)) [
            | inl here ↦
                let absent : diff_of diffs k ≡ none = rw ((==_iff k d.element.id).0 here) fresh in
                rw here (
                  then_nothing k (effect d) p m q
                    (subst (λ t. EffectAt k (if t then effect d else no_effect) p m) here (e1 k))
                    (subst (λ o. EffectAt k (effect_at effect o) m q) absent (e2 k)))
            | inr other ↦ rw other (
                nothing_then k (effect_at effect (diff_of diffs k)) p m q
                  (subst (λ t. EffectAt k (if t then effect d else no_effect) p m) other (e1 k))
                  (e2 k))
          ],
        )
