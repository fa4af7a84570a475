-- ===== src/Slabs/Migration/Appends.antt =====
-- With which hosts there is a contract that a sector can be appended to.
use indexd.Base.{
  ℕ, ◌≡◌, ◌⊎◌, refl, sym, ap, ◌∙◌, true, false, Bool, Option, none, some, List, [], ◌∷◌, ◌==◌,
  Among, subst, arith, Bool-cases, inl, inr,
}
use indexd.Base.Outcome.{Outcome, ok, err, panic, value_of}
use indexd.Base.Currency.{CurrencyOps}
use indexd.Base.Proto.{Proto}
use indexd.Contracts.Contract.{Contract, Check, good_for_append}
use indexd.Hosts.{Host}
use indexd.Slabs.Migration.{
  MigrationState, HostsMap, Eligible, is_nil, note_contract, add_contract, note_contracts,
}

module _ {Prices : Type 0} (ops : CurrencyOps) (proto : Proto Prices)
    (state : MigrationState Prices) where
  -- A contract with the host of key `k` that a sector can be appended to.
  abbrev pub AppendsTo : HostsMap Prices → ℕ → Contract → Type 0
  AppendsTo m k c =
      (c.host_key ≡ k)
      × (host : Host Prices) × (m k ≡ some host)
      × (good_for_append ops proto c host.settings state.renew_window state.height state.period
          ≡ ok tt)

  is_nil-ok : (r : Check) → is_nil r ≡ ok true → r ≡ ok tt
  unfolding is_nil
  is_nil-ok (ok u) e = refl
  is_nil-ok (err x) e = cc
  is_nil-ok panic e = cc

  same_eligible : {a b : Eligible} → ◌≡◌ {A = Outcome ⊥ Eligible} (ok a) (ok b) → a ≡ b
  same_eligible e = cc

  add_contract-has :
      (e : Eligible) (c : Contract) (appendable : Bool) (k : ℕ)
      → (add_contract e c appendable).has_append_contract k ≡ true
      → ((c.host_key ≡ k) × (appendable ≡ true)) ⊎ (e.has_append_contract k ≡ true)
  unfolding add_contract
  add_contract-has e c false k has = inr has
  add_contract-has e c true k has = elim (Bool-cases (k == c.host_key)) [
    | inl same ↦ inl (ground arith, refl)
    | inr other ↦ inr (rw other at has)
  ]

  note_contract-AppendsTo :
      (m : HostsMap Prices) (e e' : Eligible) (c : Contract) (o : Option (Host Prices)) (k : ℕ)
      → m c.host_key ≡ o
      → note_contract ops proto state e c o ≡ ok e'
      → e'.has_append_contract k ≡ true
      → AppendsTo m k c ⊎ (e.has_append_contract k ≡ true)
  unfolding note_contract
  note_contract-AppendsTo m e e' c none k found went has = inr (rw (same_eligible went) has)
  note_contract-AppendsTo m e e' c (some host) k found went has =
      let (appendable, checked, noted) =
        value_of (λ b. ok (add_contract e c b))
          (is_nil (
            good_for_append ops proto c host.settings state.renew_window state.height state.period))
          went in
      let has' : (add_contract e c appendable).has_append_contract k ≡ true =
        subst (λ (x : Eligible). x.has_append_contract k ≡ true) (sym (same_eligible noted)) has in
      elim (add_contract-has e c appendable k has') [
        | inl (named, can) ↦
            inl (named, host, sym (ap m named) ∙ found, is_nil-ok _ (checked ∙ ap ok can))
        | inr before ↦ inr before
      ]

  pub note_contracts-AppendsTo :
      (m : HostsMap Prices) (cs : List Contract) (e e' : Eligible) (k : ℕ)
      → note_contracts ops proto state m e cs ≡ ok e'
      → e'.has_append_contract k ≡ true
      → ((c : Contract) × Among c cs × AppendsTo m k c) ⊎ (e.has_append_contract k ≡ true)
  unfolding note_contracts
  note_contracts-AppendsTo m [] e e' k went has = inr (rw (same_eligible went) has)
  note_contracts-AppendsTo m (c ∷ cs) e e' k went has =
      let (mid, first, rest) =
        value_of (λ x. note_contracts ops proto state m x cs)
          (note_contract ops proto state e c (m c.host_key)) went in
      elim (note_contracts-AppendsTo m cs mid e' k rest has) [
        | inl (d, place, appends) ↦ inl (d, inr place, appends)
        | inr noted ↦ elim (note_contract-AppendsTo m e mid c (m c.host_key) k refl first noted) [
          | inl appends ↦ inl (c, inl refl, appends)
          | inr before ↦ inr before
        ]
      ]
