-- ===== src/Postgres/ChainTx/Lookup.antt =====
-- What is found in the tables after a statement.
use indexd.Base.{
  ℕ, ◌≡◌, refl, false, ◌&&◌, Option, none, some, List, [], ◌∷◌, ◌++◌, contains, ◌==◌, if◌then◌else◌,
  arith, Bool-cases, inl, inr, ==_iff,
}
use indexd.Contracts.ChainTx.{Element, Row, is_some, at_key, latest}
use indexd.Postgres.ChainTx.{
  ContractRow, find_row, exists_row, update_rows, exists_element, replace_element, upsert_element,
  delete_element, delete_elements,
}

pub exists-find :
    (rows : List ContractRow) (id : ℕ) → exists_row rows id ≡ is_some (find_row rows id)
exists-find [] id = refl
exists-find (r ∷ rows) id = elim (Bool-cases (id == r.contract_id)) [
  | inl here ↦ rw here refl
  | inr other ↦ rw other (exists-find rows id)
]

pub find-update_rows :
    (f : Row → Row) (id : ℕ) (rows : List ContractRow) (k : ℕ)
    → find_row (update_rows f id rows) k
      ≡ (if k == id then at_key f (find_row rows k) else find_row rows k)
find-update_rows f id [] k = ground arith
find-update_rows f id (r ∷ rows) k = ground (arith, find-update_rows f id rows k)

latest-append_element :
    (es : List Element) (e : Element) (k : ℕ) (x : Option Element)
    → latest (es ++ e ∷ []) k x ≡ (if k == e.id then some e else latest es k x)
latest-append_element [] e k x = refl
latest-append_element (y ∷ es) e k x = latest-append_element es e k _

latest-absent :
    (es : List Element) (k : ℕ) (x : Option Element)
    → exists_element es k ≡ false
    → latest es k x ≡ x
latest-absent [] k x absent = refl
latest-absent (e ∷ es) k x absent = elim (Bool-cases (k == e.id)) [
  | inl here ↦ absurd (ground arith)
  | inr other ↦ rw other (latest-absent es k x (ground arith))
]

latest-replace_element :
    (e : Element) (es : List Element) (k : ℕ) (x : Option Element)
    → latest (replace_element e es) k x
      ≡ (if k == e.id && exists_element es e.id then some e else latest es k x)
latest-replace_element e [] k x = ground arith
latest-replace_element e (y ∷ es) k x = elim (Bool-cases (e.id == y.id)) [
  | inl here ↦
      let same : e.id ≡ y.id = (==_iff e.id y.id).0 here in
      rw (here, latest-replace_element e es k (if k == e.id then some e else x))
        (ground (arith, latest-absent es k (some e)))
  | inr other ↦ rw (other, latest-replace_element e es k (if k == y.id then some y else x)) refl
]

latest-delete_element :
    (id : ℕ) (es : List Element) (k : ℕ) (x : Option Element)
    → latest (delete_element id es) k x ≡ (if k == id then x else latest es k x)
latest-delete_element id [] k x = ground arith
latest-delete_element id (e ∷ es) k x = elim (Bool-cases (e.id == id)) [
  | inl here ↦
      let same : e.id ≡ id = (==_iff e.id id).0 here in
      rw (here, latest-delete_element id es k x) (ground arith)
  | inr other ↦
      rw (other, latest-delete_element id es k (if k == e.id then some e else x)) (ground arith)
]

pub latest-upsert_element :
    (e : Element) (es : List Element) (k : ℕ)
    → latest (upsert_element e es) k none ≡ (if k == e.id then some e else latest es k none)
latest-upsert_element e es k = elim (Bool-cases (exists_element es e.id)) [
  | inl t ↦ rw (t, latest-replace_element e es k none, t) (ground arith)
  | inr f ↦ rw (f, latest-append_element es e k none) refl
]

pub latest-delete_elements :
    (ids : List ℕ) (es : List Element) (k : ℕ)
    → latest (delete_elements ids es) k none ≡ (if contains ids k then none else latest es k none)
latest-delete_elements [] es k = refl
latest-delete_elements (id ∷ ids) es k =
    rw (latest-delete_elements ids (delete_element id es) k, latest-delete_element id es k none)
      (ground arith)
