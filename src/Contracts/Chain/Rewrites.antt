-- ===== src/Contracts/Chain/Rewrites.antt =====
-- A contract whose row is changed, and whose element is then written or removed.
use indexd.Base.{
  ℕ, ◌≡◌, refl, sym, ap, ◌∙◌, subst, Bool, true, false, ◌||◌, Option, none, some, List, [], ◌∷◌,
  ◌++◌, contains, ◌==◌, if◌then◌else◌, Bool-cases, inl, inr, ==_iff, or_false, and_false, if_same,
  or_assoc,
}
use indexd.Base.Outcome.{Outcome, ok, ok_inj}
use indexd.Contracts.ChainTx.{Element, Row, UpdateTx, is_some, at_key, latest}
use indexd.Contracts.Chain.{Progress, write, remove, set_db}
use indexd.Contracts.Chain.Effects.{no_effect}
use indexd.Contracts.Chain.Cache.{Sound}
use indexd.Contracts.Chain.Loop.{Effects, is_some-at_key, at_key-same}

at_key-at_key :
    {A : Type 0} (f g : A → A) (o : Option A) → at_key g (at_key f o) ≡ at_key (λ a. g (f a)) o
at_key-at_key f g none = refl
at_key-at_key f g (some a) = refl

latest-append_one :
    (xs : List Element) (e : Element) (k : ℕ) (x : Option Element)
    → latest (xs ++ e ∷ []) k x ≡ (if k == e.id then some e else latest xs k x)
latest-append_one [] e k x = refl
latest-append_one (y ∷ xs) e k x = latest-append_one xs e k _

contains-append_one :
    (xs : List ℕ) (a k : ℕ) → contains (xs ++ a ∷ []) k ≡ (contains xs k || k == a)
contains-append_one [] a k = or_false (k == a)
contains-append_one (y ∷ xs) a k =
    ap (λ b. k == y || b) (contains-append_one xs a k) ∙ or_assoc (k == y) (contains xs k) (k == a)

module _ {S Err : Type 0} (ops : UpdateTx S Err) (v2_renewal_id : ℕ → ℕ) (known : ℕ → Bool) where
  open ops use {row_of, element_of}

  -- A contract whose row is changed, and no element yet.
  unfoldable pub Rewrites : ℕ → (Row → Row) → S → S → Type 0
  Rewrites id f s t =
      (k : ℕ)
      → (row_of t k ≡ (if k == id then at_key f (row_of s k) else row_of s k))
        × (element_of t k ≡ element_of s k)

  Rewrites-here :
      (id k : ℕ) (f : Row → Row) (s t : S)
      → (k == id) ≡ true
      → Rewrites id f s t
      → row_of t k ≡ at_key f (row_of s k)
  unfolding Rewrites
  Rewrites-here id k f s t here changed =
      subst (λ b. row_of t k ≡ (if b then at_key f (row_of s k) else row_of s k)) here (changed k).0

  Rewrites-other :
      (id k : ℕ) (f : Row → Row) (s t : S)
      → (k == id) ≡ false
      → Rewrites id f s t
      → row_of t k ≡ row_of s k
  unfolding Rewrites
  Rewrites-other id k f s t other changed =
      subst (λ b. row_of t k ≡ (if b then at_key f (row_of s k) else row_of s k)) other
        (changed k).0

  pub Rewrites-Sound :
      (id : ℕ) (f : Row → Row) (p : Progress S) (t : S)
      → Sound ops v2_renewal_id known p.tx
      → Rewrites id f p.tx.db t
      → Sound ops v2_renewal_id known (record p.tx { db = t })
  Rewrites-Sound id f p t sound changed k = (
    elim (Bool-cases (k == id)) [
      | inl here ↦
          ap is_some (Rewrites-here id k f p.tx.db t here changed)
          ∙ is_some-at_key f (row_of p.tx.db k)
          ∙ (sound k).0
      | inr other ↦ ap is_some (Rewrites-other id k f p.tx.db t other changed) ∙ (sound k).0
    ],
    (sound k).1,
  )

  pub Rewrites-then :
      (id : ℕ) (f g : Row → Row) (s t u : S)
      → Rewrites id f s t
      → Rewrites id g t u
      → Rewrites id (λ row. g (f row)) s u
  unfolding Rewrites
  Rewrites-then id f g s t u first second k = (
    elim (Bool-cases (k == id)) [
      | inl here ↦ rw here (
          Rewrites-here id k g t u here second
          ∙ ap (at_key g) (Rewrites-here id k f s t here first)
          ∙ at_key-at_key f g (row_of s k))
      | inr other ↦
          rw other (Rewrites-other id k g t u other second ∙ Rewrites-other id k f s t other first)
    ],
    (second k).1 ∙ (first k).1,
  )

  write-Effects :
      (id : ℕ) (f : Row → Row) (e : Element) (p : Progress S) (t : S)
      → e.id ≡ id
      → known id ≡ true
      → Rewrites id f p.tx.db t
      → Effects ops v2_renewal_id known
          (λ k.
            if k == id then record { on_row = f; written = some e; removed = false } else no_effect)
          p
          (write ops v2_renewal_id e (set_db p t))
  unfolding write Rewrites
  write-Effects id f e p t own is_in changed k = elim (Bool-cases (k == id)) [
    | inl here ↦
        let there : k ≡ id = (==_iff k id).0 here in
        rw here (
          Rewrites-here id k f p.tx.db t here changed,
          (changed k).1,
          λ x. rw (latest-append_one p.updated e k x, own, here, there, is_in) refl,
          rw (and_false (known k)) (sym (or_false (contains p.removed k))),
        )
    | inr other ↦ rw other (
      Rewrites-other id k f p.tx.db t other changed ∙ sym (at_key-same (row_of p.tx.db k)),
      (changed k).1,
      λ x. rw (latest-append_one p.updated e k x, own, other) (sym (if_same (known k) _)),
      rw (and_false (known k)) (sym (or_false (contains p.removed k))),
    )
  ]

  remove-Effects :
      (id : ℕ) (f : Row → Row) (p : Progress S) (t : S)
      → known id ≡ true
      → Rewrites id f p.tx.db t
      → Effects ops v2_renewal_id known
          (λ k.
            if k == id then record { on_row = f; written = none; removed = true } else no_effect)
          p
          (remove ops v2_renewal_id id (set_db p t))
  unfolding remove Rewrites
  remove-Effects id f p t is_in changed k = elim (Bool-cases (k == id)) [
    | inl here ↦
        let there : k ≡ id = (==_iff k id).0 here in
        rw here (
          Rewrites-here id k f p.tx.db t here changed,
          (changed k).1,
          λ x. sym (if_same (known k) _),
          rw (contains-append_one p.removed id k, here, there, is_in) refl,
        )
    | inr other ↦ rw other (
      Rewrites-other id k f p.tx.db t other changed ∙ sym (at_key-same (row_of p.tx.db k)),
      (changed k).1,
      λ x. sym (if_same (known k) _),
      rw (contains-append_one p.removed id k, other, and_false (known k)) refl,
    )
  ]

  pub Rewrites-nothing : (id : ℕ) (s : S) → Rewrites id (λ row. row) s s
  unfolding Rewrites
  Rewrites-nothing id s k = (
    sym (
        ap (λ o. if k == id then o else row_of s k) (at_key-same (row_of s k))
        ∙ if_same (k == id) _),
    refl,
  )

  -- The end of a case that writes an element, and of one that removes it.
  pub write-Ends :
      (id : ℕ) (f : Row → Row) (e : Element) (p q : Progress S) (t : S)
      → Sound ops v2_renewal_id known p.tx
      → e.id ≡ id
      → known id ≡ true
      → Rewrites id f p.tx.db t
      → ◌≡◌ {A = Outcome Err (Progress S)} (ok (write ops v2_renewal_id e (set_db p t))) (ok q)
      → Sound ops v2_renewal_id known q.tx
        × Effects ops v2_renewal_id known
            (λ k.
              if k == id
              then record { on_row = f; written = some e; removed = false }
              else no_effect)
            p
            q
  unfolding write
  write-Ends id f e p q t sound own is_in changed went =
      rw (← ok_inj went)
        (Rewrites-Sound id f p t sound changed, write-Effects id f e p t own is_in changed)

  pub remove-Ends :
      (id : ℕ) (f : Row → Row) (p q : Progress S) (t : S)
      → Sound ops v2_renewal_id known p.tx
      → known id ≡ true
      → Rewrites id f p.tx.db t
      → ◌≡◌ {A = Outcome Err (Progress S)} (ok (remove ops v2_renewal_id id (set_db p t))) (ok q)
      → Sound ops v2_renewal_id known q.tx
        × Effects ops v2_renewal_id known
            (λ k.
              if k == id then record { on_row = f; written = none; removed = true } else no_effect)
            p
            q
  unfolding remove
  remove-Ends id f p q t sound is_in changed went =
      rw (← ok_inj went)
        (Rewrites-Sound id f p t sound changed, remove-Effects id f p t is_in changed)
