-- ===== src/Postgres/Prunable/Referred.antt =====
-- What it is for the store to refer to a root in a contract, read off the tables.
use indexd.Base.{
  ℕ, ◌≡◌, ◌⊎◌, ◌↔◌, refl, sym, ap, ◌∙◌, subst, Bool, true, false, not, ◌&&◌, ◌||◌, Option, none,
  some, List, [], ◌∷◌, keep, All, ◌==◌, Bool-cases, inl, inr, ==_iff, some_inj, none-ne-some,
  false-ne-true,
}
use indexd.Base.Outcome.{ok, ok_inj, value_of}
use indexd.Postgres.Prunable.{
  SectorRow, HostOfContract, MapRow, PruneTables, select_map_id, select_host_id, equals, is_null,
  holds_sector, prunable_contract_roots, is_held, needs_sector, prunable_contract_roots_lem,
}

-- Some row meets a condition.
abbrev pub Some : {A : Type 0} → (A → Type 0) → List A → Type 0
Some P [] = ⊥
Some P (x ∷ xs) = P x ⊎ Some P xs

-- No two rows have the same key (`UNIQUE`).
abbrev pub Unique : {A : Type 0} → (A → ℕ) → List A → Type 0
Unique key [] = Unit
Unique key (x ∷ xs) = All (λ y. key y ≡ key x → ⊥) xs × Unique key xs

-- The sector is pinned to the contract: its map row is one of the contract.
abbrev pub PinnedTo : PruneTables → ℕ → SectorRow → Type 0
PinnedTo s id row =
    Some (λ m. (m.contract_id ≡ id) × (row.contract_sectors_map_id ≡ some m.map_id))
      s.contract_sectors_map

-- The sector is not pinned, and is on the contract's host.
abbrev pub UnpinnedOnHost : PruneTables → ℕ → SectorRow → Type 0
UnpinnedOnHost s id row =
    (row.contract_sectors_map_id ≡ none)
    × Some (λ c. (c.contract_id ≡ id) × (row.host_id ≡ some c.host_id)) s.contracts

abbrev pub Referred : PruneTables → ℕ → ℕ → Type 0
Referred s id root =
    Some (λ row. (row.sector_root ≡ root) × (PinnedTo s id row ⊎ UnpinnedOnHost s id row)) s.sectors

-- Of rows with different keys, the value at a key is the one that was selected.
module _ {A : Type 0} (key value : A → ℕ) (P : ℕ → Type 0) (id : ℕ) where
  no_other :
      (rows : List A) (r : A)
      → All (λ y. key y ≡ key r → ⊥) rows
      → key r ≡ id
      → Some (λ y. (key y ≡ id) × P (value y)) rows
      → ⊥
  no_other [] r others here found = found
  no_other (y ∷ rows) r others here (inl (at_id, p)) = others.0 (at_id ∙ sym here)
  no_other (y ∷ rows) r others here (inr found) = no_other rows r others.1 here found

  only_here :
      (rows : List A) (r : A)
      → All (λ y. key y ≡ key r → ⊥) rows
      → key r ≡ id
      → Some (λ y. (key y ≡ id) × P (value y)) (r ∷ rows)
      → P (value r)
  only_here rows r others here (inl found) = found.1
  only_here rows r others here (inr found) = absurd (no_other rows r others here found)

  only_later :
      (rows : List A) (r : A)
      → (key r == id) ≡ false
      → Some (λ y. (key y ≡ id) × P (value y)) (r ∷ rows)
      → Some (λ y. (key y ≡ id) × P (value y)) rows
  only_later rows r other (inl found) = absurd (false-ne-true (sym other ∙ (==_iff _ _).1 found.0))
  only_later rows r other (inr found) = found

module _ (P : ℕ → Type 0) (id v : ℕ) where
  select_map_id_iff :
      (rows : List MapRow)
      → Unique (λ m. m.contract_id) rows
      → select_map_id rows id ≡ ok v
      → P v ↔ Some (λ m. (m.contract_id ≡ id) × P m.map_id) rows
  unfolding select_map_id
  select_map_id_iff [] unique found = absurd cc
  select_map_id_iff (r ∷ rows) unique found = elim (Bool-cases (r.contract_id == id)) [
    | inl t ↦
        let here : r.contract_id ≡ id = (==_iff r.contract_id id).0 t in
        let same : r.map_id ≡ v = ok_inj (rw t at found) in
        (
          λ p. inl (here, subst P (sym same) p),
          λ q.
              subst P same
                (only_here (λ m. m.contract_id) (λ m. m.map_id) P id rows r unique.0 here q),
        )
    | inr f ↦
        let rest = select_map_id_iff rows unique.1 (rw f at found) in
        (
          λ p. inr (rest.0 p),
          λ q. rest.1 (only_later (λ m. m.contract_id) (λ m. m.map_id) P id rows r f q),
        )
  ]

  select_host_id_iff :
      (rows : List HostOfContract)
      → Unique (λ c. c.contract_id) rows
      → select_host_id rows id ≡ ok v
      → P v ↔ Some (λ c. (c.contract_id ≡ id) × P c.host_id) rows
  unfolding select_host_id
  select_host_id_iff [] unique found = absurd cc
  select_host_id_iff (r ∷ rows) unique found = elim (Bool-cases (r.contract_id == id)) [
    | inl t ↦
        let here : r.contract_id ≡ id = (==_iff r.contract_id id).0 t in
        let same : r.host_id ≡ v = ok_inj (rw t at found) in
        (
          λ p. inl (here, subst P (sym same) p),
          λ q.
              subst P same
                (only_here (λ c. c.contract_id) (λ c. c.host_id) P id rows r unique.0 here q),
        )
    | inr f ↦
        let rest = select_host_id_iff rows unique.1 (rw f at found) in
        (
          λ p. inr (rest.0 p),
          λ q. rest.1 (only_later (λ c. c.contract_id) (λ c. c.host_id) P id rows r f q),
        )
  ]

equals_iff : (o : Option ℕ) (n : ℕ) → (equals o n ≡ true) ↔ (o ≡ some n)
equals_iff none n = (λ e. absurd (false-ne-true e), λ e. absurd (none-ne-some e))
equals_iff (some m) n = (λ e. ap some ((==_iff m n).0 e), λ e. (==_iff m n).1 (some_inj e))

or_cases : (a b : Bool) → ((a || b) ≡ true) ↔ ((a ≡ true) ⊎ (b ≡ true))
or_cases true b = (λ e. inl refl, λ e. refl)
or_cases false true = (λ e. inr refl, λ e. refl)
or_cases false false = (λ e. inl e, λ s. elim s [ inl e ↦ e | inr e ↦ e ])

and_cases : (a b : Bool) → ((a && b) ≡ true) ↔ ((a ≡ true) × (b ≡ true))
and_cases true b = (λ e. (refl, e), λ p. p.1)
and_cases false b = (λ e. absurd (false-ne-true e), λ p. p.0)

is_null_iff : (o : Option ℕ) → (is_null o ≡ true) ↔ (o ≡ none)
is_null_iff none = (λ e. refl, λ e. refl)
is_null_iff (some m) = (λ e. absurd (false-ne-true e), λ e. absurd (none-ne-some (sym e)))

holds_sector_iff :
    (map_id host_id : ℕ) (row : SectorRow)
    → (holds_sector map_id host_id row ≡ true) ↔ (
        (row.contract_sectors_map_id ≡ some map_id)
        ⊎ ((row.contract_sectors_map_id ≡ none) × (row.host_id ≡ some host_id)))
holds_sector_iff map_id host_id row =
    let pinned = equals_iff row.contract_sectors_map_id map_id in
    let on_host = equals_iff row.host_id host_id in
    let unpinned = is_null_iff row.contract_sectors_map_id in
    let both = and_cases (equals row.host_id host_id) (is_null row.contract_sectors_map_id) in
    let either = or_cases (equals row.contract_sectors_map_id map_id) _ in
    (
      λ e. elim (either.0 e) [
        | inl t ↦ inl (pinned.0 t)
        | inr t ↦ inr (unpinned.0 (both.0 t).1, on_host.0 (both.0 t).0)
      ],
      λ s. either.1 (elim s [
        | inl t ↦ inl (pinned.1 t)
        | inr t ↦ inr (both.1 (on_host.1 t.1, unpinned.1 t.0))
      ]),
    )

module _ (s : PruneTables) (id map_id host_id : ℕ)
    (one_map : Unique (λ m. m.contract_id) s.contract_sectors_map)
    (one_contract : Unique (λ c. c.contract_id) s.contracts)
    (map_found : select_map_id s.contract_sectors_map id ≡ ok map_id)
    (host_found : select_host_id s.contracts id ≡ ok host_id) where
  holds_sector-Referred :
      (row : SectorRow)
      → (holds_sector map_id host_id row ≡ true) ↔ (PinnedTo s id row ⊎ UnpinnedOnHost s id row)
  holds_sector-Referred row =
      let held = holds_sector_iff map_id host_id row in
      let pinned =
        select_map_id_iff (λ v. row.contract_sectors_map_id ≡ some v) id map_id
          s.contract_sectors_map one_map map_found in
      let on_host =
        select_host_id_iff (λ v. row.host_id ≡ some v) id host_id s.contracts one_contract
          host_found in
      (
        λ e. elim (held.0 e) [ inl t ↦ inl (pinned.0 t) | inr t ↦ inr (t.0, on_host.0 t.1) ],
        λ r. held.1 (elim r [ inl t ↦ inl (pinned.1 t) | inr t ↦ inr (t.0, on_host.1 t.1) ]),
      )

  is_held-Referred :
      (rows : List SectorRow) (root : ℕ)
      → (is_held map_id host_id rows root ≡ true)
        ↔ Some
            (λ row. (row.sector_root ≡ root) × (PinnedTo s id row ⊎ UnpinnedOnHost s id row))
            rows
  is_held-Referred [] root = (λ e. false-ne-true e, λ f. absurd f)
  is_held-Referred (row ∷ rows) root =
      let rest = is_held-Referred rows root in
      let this = holds_sector-Referred row in
      let both = and_cases (root == row.sector_root) (holds_sector map_id host_id row) in
      let either = or_cases (root == row.sector_root && holds_sector map_id host_id row) _ in
      (
        λ e. elim (either.0 e) [
          | inl t ↦ inl (sym ((==_iff root row.sector_root).0 (both.0 t).0), this.0 (both.0 t).1)
          | inr t ↦ inr (rest.0 t)
        ],
        λ f. either.1 (elim f [
          | inl t ↦ inl (both.1 ((==_iff root row.sector_root).1 (sym t.0), this.1 t.1))
          | inr t ↦ inr (rest.1 t)
        ]),
      )

-- If no contract has two rows in a table and the query succeeds, then what is prunable of the given
-- roots is, in their order, what the store does not refer to; and it refers to the roots of the
-- sectors that are pinned to the contract, and of those that are not pinned but on its host, and to
-- no other.
pub prunable_contract_roots-Referred :
    (s : PruneTables) (id : ℕ) (roots prunable : List ℕ)
    → Unique (λ m. m.contract_id) s.contract_sectors_map
    → Unique (λ c. c.contract_id) s.contracts
    → prunable_contract_roots s id roots ≡ ok prunable
    → (prunable ≡ keep (λ root. not (needs_sector s id root)) roots)
      × ((root : ℕ) → (needs_sector s id root ≡ true) ↔ Referred s id root)
unfolding prunable_contract_roots needs_sector
prunable_contract_roots-Referred s id roots prunable one_map one_contract went =
    let (map_id, map_found, w1) = value_of _ (select_map_id s.contract_sectors_map id) went in
    let (host_id, host_found, w2) = value_of _ (select_host_id s.contracts id) w1 in
    (
      prunable_contract_roots_lem s id roots prunable went,
      λ root.
          rw (map_found, host_found)
            (is_held-Referred s id map_id host_id one_map one_contract map_found host_found
              s.sectors root),
    )
