-- ===== src/Postgres/ChainTx.antt =====
-- persist/postgres/contracts.go: the transaction of a chain update (`updateTx`), on the tables
-- `contracts` and `contract_elements`. A statement fails by a constraint of a table; a connection that
-- fails is left out. Of a row of `contracts` there are the columns that the transaction reads or
-- writes.
mod Lookup
pub mod Meets
use indexd.Base.{
  ℕ, ◌+◌, ◌≡◌, Bool, true, false, not, ◌&&◌, ◌||◌, Option, none, some, List, [], ◌∷◌, ◌++◌, map,
  keep, ◌==◌, if◌then◌else◌,
}
use indexd.Base.Outcome.{Outcome, ok, err, ◌>>=◌}
use indexd.Contracts.Contract.{ContractState}
use indexd.Contracts.ChainTx.{Element, Row}

pub record ContractRow : Type 0 where
  pub contract_id : ℕ
  pub row : Row

pub record Tables : Type 0 where
  pub contracts : List ContractRow
  pub contract_elements : List Element

-- The foreign key of `contract_elements`, `UNIQUE` of `renewed_to`, and `RowsAffected() != 1`.
pub data SqlError : Type 0 where
  foreign_key not_unique rows_affected : SqlError

-- The row of a contract, whose `contract_id` is unique.
abbrev pub find_row : List ContractRow → ℕ → Option Row
find_row [] id = none
find_row (r ∷ rows) id = if id == r.contract_id then some r.row else find_row rows id

-- `SELECT EXISTS (SELECT 1 FROM contracts WHERE contract_id = $1)`
abbrev pub exists_row : List ContractRow → ℕ → Bool
exists_row [] id = false
exists_row (r ∷ rows) id = id == r.contract_id || exists_row rows id

-- `UPDATE contracts SET ... WHERE contract_id = $2`
abbrev pub update_rows : (Row → Row) → ℕ → List ContractRow → List ContractRow
update_rows f id [] = []
update_rows f id (r ∷ rows) =
    (if id == r.contract_id then record r { row = f r.row } else r) ∷ update_rows f id rows

-- `RowsAffected()` of that statement
unfoldable pub rows_affected_by : ℕ → List ContractRow → ℕ
rows_affected_by id [] = 0
rows_affected_by id (r ∷ rows) = (if id == r.contract_id then 1 else 0) + rows_affected_by id rows

unfoldable pub renewed_to_is : ℕ → Option ℕ → Bool
renewed_to_is r none = false
renewed_to_is r (some s) = r == s

-- Does another contract have this renewal?
unfoldable pub taken : ℕ → ℕ → List ContractRow → Bool
unfolding renewed_to_is
taken id r [] = false
taken id r (c ∷ rows) =
    not (id == c.contract_id) && renewed_to_is r c.row.renewed_to || taken id r rows

abbrev pub exists_element : List Element → ℕ → Bool
exists_element [] id = false
exists_element (e ∷ es) id = id == e.id || exists_element es id

abbrev pub replace_element : Element → List Element → List Element
replace_element e [] = []
replace_element e (x ∷ es) = (if e.id == x.id then e else x) ∷ replace_element e es

-- `INSERT INTO contract_elements ... ON CONFLICT (contract_id) DO UPDATE ...`
abbrev pub upsert_element : Element → List Element → List Element
upsert_element e es = if exists_element es e.id then replace_element e es else es ++ e ∷ []

unfoldable pub contract_elements_of : Tables → Outcome SqlError (List Element)
contract_elements_of s = ok s.contract_elements

unfoldable pub is_known_contract_in : Tables → ℕ → Outcome SqlError Bool
is_known_contract_in s id = ok (exists_row s.contracts id)

abbrev pub delete_element : ℕ → List Element → List Element
delete_element id es = keep (λ e. not (e.id == id)) es

abbrev pub delete_elements : List ℕ → List Element → List Element
delete_elements [] es = es
delete_elements (id ∷ ids) es = delete_elements ids (delete_element id es)

unfoldable pub delete_contract_elements_in : List ℕ → Tables → Outcome SqlError Tables
delete_contract_elements_in ids s =
    ok (record s { contract_elements = delete_elements ids s.contract_elements })

-- One statement of the loop.
unfoldable pub put_element : Element → Tables → Outcome SqlError Tables
put_element e s =
    if exists_row s.contracts e.id
    then ok (record s { contract_elements = upsert_element e s.contract_elements })
    else err foreign_key

unfoldable pub update_contract_elements_in : List Element → Tables → Outcome SqlError Tables
unfolding put_element
update_contract_elements_in [] s = ok s
update_contract_elements_in (e ∷ es) s = put_element e s >>= update_contract_elements_in es

unfoldable pub update_contract_state_in : ℕ → ContractState → Tables → Outcome SqlError Tables
update_contract_state_in id state s =
    ok (record s { contracts = update_rows (λ row. record row { state = state }) id s.contracts })

unfoldable pub clashes : ℕ → Option ℕ → List ContractRow → Bool
unfolding taken
clashes id none rows = false
clashes id (some r) rows = taken id r rows

-- The statement, and the count of the rows that it changed.
unfoldable pub set_renewed_to : ℕ → Option ℕ → Tables → Outcome SqlError Tables
unfolding rows_affected_by clashes
set_renewed_to id renewed_to s =
    if rows_affected_by id s.contracts == 1
    then (if clashes id renewed_to s.contracts
        then err not_unique
        else ok (record s {
          contracts = update_rows (λ row. record row { renewed_to = renewed_to }) id s.contracts;
        }))
    else err rows_affected

unfoldable pub update_contract_renewed_to_in : ℕ → Option ℕ → Tables → Outcome SqlError Tables
unfolding set_renewed_to
update_contract_renewed_to_in id none s = set_renewed_to id none s
update_contract_renewed_to_in id (some r) s =
    if exists_row s.contracts r then set_renewed_to id (some r) s else ok s
