-- ===== src/Client/Provider/Picks/Order.antt =====
-- `ahead` is a strict order in which the hosts that no test tells apart are one place.
use Prim.Native.Nat.{Ordering}
use indexd.Base.{ℕ, ◌≡◌, refl, true, false, Bool-cases, false-ne-true, inl, inr}
use indexd.Client.Provider.{Floats}
use indexd.Client.Provider.Compare.{
  compare_metrics_trans, compare_metrics_irrefl, compare_metrics_split,
}
use indexd.Client.Provider.Picks.{Provider, is_lt, ahead}

is_lt-eq : (o : Ordering) → is_lt o ≡ true → o ≡ Ordering.lt
is_lt-eq Ordering.lt e = refl
is_lt-eq Ordering.eq e = cc
is_lt-eq Ordering.gt e = cc

is_lt-ne : (o : Ordering) → (o ≡ Ordering.lt → ⊥) → is_lt o ≡ false
is_lt-ne Ordering.lt e = absurd (e refl)
is_lt-ne Ordering.eq e = refl
is_lt-ne Ordering.gt e = refl

module _ (floats : Floats) (now : ℕ) (p : Provider floats) where
  pub ahead_trans :
      (a b c : ℕ)
      → ahead floats now p a b ≡ true
      → ahead floats now p b c ≡ true
      → ahead floats now p a c ≡ true
  ahead_trans a b c h k =
      rw
        (compare_metrics_trans floats now (p.metrics a) (p.metrics b) (p.metrics c) (is_lt-eq _ h)
          (is_lt-eq _ k))
        refl

  pub ahead_irrefl : (a : ℕ) → ahead floats now p a a ≡ false
  ahead_irrefl a = is_lt-ne _ (compare_metrics_irrefl floats now (p.metrics a))

  -- What is not behind a host, nor that host behind a third, is not behind the third.
  pub not_ahead_trans :
      (a b c : ℕ)
      → ahead floats now p a b ≡ false
      → ahead floats now p b c ≡ false
      → ahead floats now p a c ≡ false
  not_ahead_trans a b c h k = is_lt-ne _ (λ e.
      elim (compare_metrics_split floats now (p.metrics a) (p.metrics b) (p.metrics c) e) [
        | inl first ↦ false-ne-true (cc (h, first))
        | inr second ↦ false-ne-true (cc (k, second))
      ])

  pub ahead_asym : (a b : ℕ) → ahead floats now p a b ≡ true → ahead floats now p b a ≡ false
  ahead_asym a b h = elim (Bool-cases (ahead floats now p b a)) [
    | inl t ↦ absurd (false-ne-true (cc (ahead_irrefl a, ahead_trans a b a h t)))
    | inr f ↦ f
  ]
