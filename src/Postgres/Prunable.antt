-- ===== src/Postgres/Prunable.antt =====
-- persist/postgres/contracts.go: `PrunableContractRoots`, on the columns that it reads of the tables
-- `contracts`, `contract_sectors_map` and `sectors`.
pub mod Referred
use indexd.Base.{
  keep-cong, ℕ, ◌≡◌, refl, ap, sym, ◌∙◌, Bool, true, false, not, ◌&&◌, ◌||◌, Option, none, some,
  List, [], ◌∷◌, keep, contains, ◌==◌, if◌then◌else◌, Bool-cases, inl, inr, ==_iff,
}
use indexd.Base.Outcome.{Outcome, ok, err, ◌>>=◌, value_of, ok_inj}

pub record SectorRow : Type 0 where
  pub sector_root : ℕ
  pub host_id : Option ℕ
  pub contract_sectors_map_id : Option ℕ

pub record HostOfContract : Type 0 where
  pub contract_id : ℕ
  pub host_id : ℕ

pub record MapRow : Type 0 where
  pub map_id : ℕ
  pub contract_id : ℕ

pub record PruneTables : Type 0 where
  pub contracts : List HostOfContract
  pub contract_sectors_map : List MapRow
  pub sectors : List SectorRow

pub data PruneError : Type 0 where
  no_map_row not_found : PruneError

-- `SELECT id FROM contract_sectors_map WHERE contract_id = $1`
select_map_id : List MapRow → ℕ → Outcome PruneError ℕ
select_map_id [] id = err no_map_row
select_map_id (r ∷ rows) id = if r.contract_id == id then ok r.map_id else select_map_id rows id

-- `SELECT host_id FROM contracts WHERE contract_id = $1`
select_host_id : List HostOfContract → ℕ → Outcome PruneError ℕ
select_host_id [] id = err not_found
select_host_id (r ∷ rows) id = if r.contract_id == id then ok r.host_id else select_host_id rows id

abbrev pub equals : Option ℕ → ℕ → Bool
equals none n = false
equals (some m) n = m == n

abbrev is_null : Option ℕ → Bool
is_null none = true
is_null (some m) = false

-- The condition of the query on a sector, next to `sector_root = ANY($1)`: it is pinned to the
-- contract, or on the contract's host and not pinned yet.
abbrev pub holds_sector : ℕ → ℕ → SectorRow → Bool
holds_sector map_id host_id row =
    equals row.contract_sectors_map_id map_id
    || equals row.host_id host_id && is_null row.contract_sectors_map_id

-- The rows of the query, as the map `lookup` of their roots.
select_roots : List SectorRow → List ℕ → ℕ → ℕ → List ℕ
select_roots [] roots map_id host_id = []
select_roots (row ∷ rows) roots map_id host_id =
    let rest = select_roots rows roots map_id host_id in
    if contains roots row.sector_root && holds_sector map_id host_id row
    then row.sector_root ∷ rest
    else rest

unfoldable pub prunable_contract_roots : PruneTables → ℕ → List ℕ → Outcome PruneError (List ℕ)
unfolding select_map_id select_host_id select_roots
prunable_contract_roots s id roots = do
  map_id ← select_map_id s.contract_sectors_map id
  host_id ← select_host_id s.contracts id
  ok (keep (λ root. not (contains (select_roots s.sectors roots map_id host_id) root)) roots)

-- Does a row with this root meet the condition?
abbrev is_held : ℕ → ℕ → List SectorRow → ℕ → Bool
is_held map_id host_id [] root = false
is_held map_id host_id (row ∷ rows) root =
    root == row.sector_root && holds_sector map_id host_id row || is_held map_id host_id rows root

abbrev held_by : Outcome PruneError ℕ → Outcome PruneError ℕ → List SectorRow → ℕ → Bool
held_by (ok map_id) (ok host_id) rows root = is_held map_id host_id rows root
held_by m h rows root = false

-- Does the store refer to a root in a contract?
unfoldable pub needs_sector : PruneTables → ℕ → ℕ → Bool
unfolding select_map_id select_host_id
needs_sector s id root =
    held_by (select_map_id s.contract_sectors_map id) (select_host_id s.contracts id) s.sectors root

select_roots-held :
    (rows : List SectorRow) (roots : List ℕ) (map_id host_id root : ℕ)
    → contains roots root ≡ true
    → contains (select_roots rows roots map_id host_id) root ≡ is_held map_id host_id rows root
unfolding select_roots
select_roots-held [] roots map_id host_id root among = refl
select_roots-held (row ∷ rows) roots map_id host_id root among =
    let rest = select_roots-held rows roots map_id host_id root among in
    elim (Bool-cases (root == row.sector_root)) [
      | inl here ↦
          let same = (==_iff root row.sector_root).0 here in
          let listed : contains roots row.sector_root ≡ true = rw (← same) among in
          elim (Bool-cases (holds_sector map_id host_id row)) [
            | inl t ↦ rw (listed, t, here) refl
            | inr f ↦ rw (listed, f, here) rest
          ]
      | inr other ↦
          elim (Bool-cases (contains roots row.sector_root && holds_sector map_id host_id row)) [
            | inl t ↦ rw (t, other) rest
            | inr f ↦ rw (f, other) rest
          ]
    ]

-- What is prunable of the given roots is, in their order, what the store does not refer to.
pub prunable_contract_roots_lem :
    (s : PruneTables) (id : ℕ) (roots prunable : List ℕ)
    → prunable_contract_roots s id roots ≡ ok prunable
    → prunable ≡ keep (λ root. not (needs_sector s id root)) roots
unfolding prunable_contract_roots needs_sector
prunable_contract_roots_lem s id roots prunable went =
    let m = value_of _ (select_map_id s.contract_sectors_map id) went in
    let h = value_of _ (select_host_id s.contracts id) m.2 in
    let held : (root : ℕ) → is_held m.0 h.0 s.sectors root ≡ needs_sector s id root = λ root. sym (
      ap (λ o. held_by o (select_host_id s.contracts id) s.sectors root) m.1
      ∙ ap (λ o. held_by (ok m.0) o s.sectors root) h.1) in
    sym (ok_inj h.2)
    ∙ keep-cong _ _ roots
        (λ root among. ap not (select_roots-held s.sectors roots m.0 h.0 root among ∙ held root))
