-- ===== src/Contracts/Chain/Cache.antt =====
-- The cache of the contracts that are known.
use indexd.Base.{
  ℕ, ◌≡◌, refl, sym, ap, ◌∙◌, Bool, true, false, Option, none, some, ◌==◌, arith, Bool-cases, inl,
  inr, ==_iff,
}
use indexd.Base.Outcome.{ok, ok_inj, value_of}
use indexd.Base.Update.{update}
use indexd.Contracts.ChainTx.{UpdateTx, is_some}
use indexd.Contracts.Chain.{CachedTx, recall, remember, is_known}

module _ {S Err : Type 0} (ops : UpdateTx S Err) (v2_renewal_id : ℕ → ℕ) (known : ℕ → Bool) where
  open ops use {row_of}

  -- The rows are those of the known contracts, and the cache says no other.
  abbrev pub Sound : CachedTx S → Type 0
  Sound tx =
      (k : ℕ)
      → (is_some (row_of tx.db k) ≡ known k)
        × ((b : Bool) → tx.known_contracts k ≡ some b → b ≡ known k)

  found_here :
      (m : ℕ → Option Bool) (fcid k : ℕ) (c d : Bool)
      → (k == fcid) ≡ true
      → update m fcid (some c) k ≡ some d
      → c ≡ d
  found_here m fcid k c d same hit = ground arith

  found_other :
      (m : ℕ → Option Bool) (fcid k : ℕ) (c : Bool)
      → (k == fcid) ≡ false
      → update m fcid (some c) k ≡ m k
  found_other m fcid k c other = rw other

  remembered :
      (m : ℕ → Option Bool) (fcid k : ℕ) (c d : Bool)
      → c ≡ known fcid
      → ((b : Bool) → m k ≡ some b → b ≡ known k)
      → update m fcid (some c) k ≡ some d
      → d ≡ known k
  remembered m fcid k c d truth others hit = elim (Bool-cases (k == fcid)) [
    | inl same ↦
        let here : k ≡ fcid = (==_iff k fcid).0 same in
        cc (here, truth, found_here m fcid k c d same hit)
    | inr other ↦ others d (sym (found_other m fcid k c other) ∙ hit)
  ]

  recall_lem :
      (tx : CachedTx S) (fcid : ℕ) (cached : Option Bool) (b : Bool) (after : CachedTx S)
      → tx.known_contracts fcid ≡ cached
      → Sound tx
      → recall ops v2_renewal_id tx fcid cached ≡ ok (b, after)
      → (b ≡ known fcid) × (after.db ≡ tx.db) × Sound after
  unfolding recall remember
  recall_lem tx fcid (some c) b after found sound went =
      let same = ok_inj went in
      let answer : c ≡ b = ap (λ r. r.0) same in
      let there : tx ≡ after = ap (λ r. r.1) same in
      rw (← there, ← answer) ((sound fcid).1 c found, refl, sound)
  recall_lem tx fcid none b after found sound went =
      let (c, asked, rest) =
        value_of (λ c. ok (remember ops v2_renewal_id tx fcid c)) (ops.is_known_contract tx.db fcid)
          went in
      let same = ok_inj rest in
      let answer : c ≡ b = ap (λ r. r.0) same in
      let there = ap (λ r. r.1) same in
      let truth : c ≡ known fcid = ops.known tx.db fcid c asked ∙ (sound fcid).0 in
      rw (← there, ← answer)
        (
          truth,
          refl,
          λ k. ((sound k).0, λ d. remembered tx.known_contracts fcid k c d truth (sound k).1),
        )

  pub is_known_lem :
      (tx : CachedTx S) (fcid : ℕ) (b : Bool) (after : CachedTx S)
      → Sound tx
      → is_known ops v2_renewal_id tx fcid ≡ ok (b, after)
      → (b ≡ known fcid) × (after.db ≡ tx.db) × Sound after
  unfolding is_known
  is_known_lem tx fcid b after sound went =
      recall_lem tx fcid (tx.known_contracts fcid) b after refl sound went
