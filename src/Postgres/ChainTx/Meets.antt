-- ===== src/Postgres/ChainTx/Meets.antt =====
-- The transaction keeps what the chain updates rely on.
use indexd.Base.{
  ℕ, ◌≡◌, refl, sym, ap, ◌∙◌, Bool, true, false, Option, none, some, List, [], ◌∷◌, contains, ◌==◌,
  if◌then◌else◌, if_same,
}
use indexd.Base.Outcome.{Outcome, ok, err, ok_inj, value_of}
use indexd.Contracts.Contract.{ContractState}
use indexd.Contracts.ChainTx.{Element, Row, UpdateTx, is_some, at_key, latest, renewed_row}
use indexd.Postgres.ChainTx.Lookup.{
  exists-find, find-update_rows, latest-upsert_element, latest-delete_elements,
}
use indexd.Postgres.ChainTx.{
  Tables, SqlError, foreign_key, not_unique, rows_affected, find_row, exists_row, rows_affected_by,
  clashes, contract_elements_of, is_known_contract_in, delete_contract_elements_in, put_element,
  update_contract_elements_in, update_contract_state_in, set_renewed_to,
  update_contract_renewed_to_in,
}

if-ok :
    {A : Type 0} (b : Bool) (a m : A) (e : SqlError)
    → (if b then ok a else err e) ≡ ok m
    → (b ≡ true) × (a ≡ m)
if-ok true a m e went = (refl, ok_inj went)
if-ok false a m e went = cc

then-ok :
    {A : Type 0} (b : Bool) (o : Outcome SqlError A) (m : A) (e : SqlError)
    → (if b then o else err e) ≡ ok m
    → o ≡ ok m
then-ok true o m e went = went
then-ok false o m e went = cc

else-ok :
    {A : Type 0} (b : Bool) (a m : A) (e : SqlError) → (if b then err e else ok a) ≡ ok m → a ≡ m
else-ok true a m e went = cc
else-ok false a m e went = ok_inj went

abbrev pub row_in : Tables → ℕ → Option Row
row_in s k = find_row s.contracts k

abbrev pub element_in : Tables → ℕ → Option Element
element_in s k = latest s.contract_elements k none

pub written-in :
    (es : List Element) (s t : Tables)
    → update_contract_elements_in es s ≡ ok t
    → (k : ℕ) → (row_in t k ≡ row_in s k) × (element_in t k ≡ latest es k (element_in s k))
unfolding update_contract_elements_in put_element
written-in [] s t went k = rw (← ok_inj went) (refl, refl)
written-in (e ∷ es) s t went k =
    let (m, first, rest) = value_of (update_contract_elements_in es) (put_element e s) went in
    let (there, stored) = if-ok (exists_row s.contracts e.id) _ m foreign_key first in
    let (row, element) = written-in es m t rest k in
    (
      row ∙ ap (λ z. row_in z k) (sym stored),
      element
          ∙ ap (λ z. latest es k (element_in z k)) (sym stored)
          ∙ ap (latest es k) (latest-upsert_element e s.contract_elements k),
    )

pub deleted-in :
    (ids : List ℕ) (s t : Tables)
    → delete_contract_elements_in ids s ≡ ok t
    → (k : ℕ)
    → (row_in t k ≡ row_in s k)
      × (element_in t k ≡ (if contains ids k then none else element_in s k))
unfolding delete_contract_elements_in
deleted-in ids s t went k =
    rw (← ok_inj went) (refl, latest-delete_elements ids s.contract_elements k)

pub state_updated-in :
    (id : ℕ) (state : ContractState) (s t : Tables)
    → update_contract_state_in id state s ≡ ok t
    → (k : ℕ)
    → (row_in t k ≡ (
        if k == id then at_key (λ row. record row { state = state }) (row_in s k) else row_in s k))
      × (element_in t k ≡ element_in s k)
unfolding update_contract_state_in
state_updated-in id state s t went k =
    rw (← ok_inj went)
      (find-update_rows (λ row. record row { state = state }) id s.contracts k, refl)

set-in :
    (id : ℕ) (renewed_to : Option ℕ) (s t : Tables)
    → set_renewed_to id renewed_to s ≡ ok t
    → (k : ℕ)
    → (row_in t k ≡ (
        if k == id
        then at_key (λ row. record row { renewed_to = renewed_to }) (row_in s k)
        else row_in s k))
      × (element_in t k ≡ element_in s k)
unfolding set_renewed_to
set-in id renewed_to s t went k =
    let one =
      then-ok (rows_affected_by id s.contracts == 1)
        (if clashes id renewed_to s.contracts then err not_unique else ok _) t rows_affected went in
    let stored = else-ok (clashes id renewed_to s.contracts) _ t not_unique one in
    rw (← stored)
      (find-update_rows (λ row. record row { renewed_to = renewed_to }) id s.contracts k, refl)

renewed-there :
    (known : ℕ → Bool) (r : ℕ) (o : Option Row)
    → known r ≡ true
    → at_key (renewed_row known (some r)) o ≡ at_key (λ row. record row { renewed_to = some r }) o
renewed-there known r none there = refl
renewed-there known r (some row) there = rw there refl

renewed-absent :
    (known : ℕ → Bool) (r : ℕ) (o : Option Row)
    → known r ≡ false
    → at_key (renewed_row known (some r)) o ≡ o
renewed-absent known r none absent = refl
renewed-absent known r (some row) absent = rw absent refl

renewed-in :
    (id r : ℕ) (s t : Tables) (there : Bool)
    → exists_row s.contracts r ≡ there
    → (if there then set_renewed_to id (some r) s else ok s) ≡ ok t
    → (k : ℕ)
    → (row_in t k ≡ (
        if k == id
        then at_key (renewed_row (λ j. is_some (row_in s j)) (some r)) (row_in s k)
        else row_in s k))
      × (element_in t k ≡ element_in s k)
renewed-in id r s t true there went k =
    let (row, element) = set-in id (some r) s t went k in
    let known = sym (exists-find s.contracts r) ∙ there in
    (
      row
          ∙ ap (λ o. if k == id then o else row_in s k)
              (sym (renewed-there (λ j. is_some (row_in s j)) r (row_in s k) known)),
      element,
    )
renewed-in id r s t false absent went k =
    let known = sym (exists-find s.contracts r) ∙ absent in
    rw (← ok_inj went) (
      sym (
          ap (λ o. if k == id then o else row_in s k)
            (renewed-absent (λ j. is_some (row_in s j)) r (row_in s k) known)
          ∙ if_same (k == id) (row_in s k)),
      refl,
    )

pub renewed_to_updated-in :
    (id : ℕ) (renewed_to : Option ℕ) (s t : Tables)
    → update_contract_renewed_to_in id renewed_to s ≡ ok t
    → (k : ℕ)
    → (row_in t k ≡ (
        if k == id
        then at_key (renewed_row (λ r. is_some (row_in s r)) renewed_to) (row_in s k)
        else row_in s k))
      × (element_in t k ≡ element_in s k)
unfolding update_contract_renewed_to_in
renewed_to_updated-in id none s t went k = set-in id none s t went k
renewed_to_updated-in id (some r) s t went k =
    renewed-in id r s t (exists_row s.contracts r) refl went k

pub listed-in :
    (s : Tables) (es : List Element)
    → contract_elements_of s ≡ ok es
    → (k : ℕ) → latest es k none ≡ element_in s k
unfolding contract_elements_of
listed-in s es went k = rw (← ok_inj went) refl

pub known-in :
    (s : Tables) (id : ℕ) (b : Bool) → is_known_contract_in s id ≡ ok b → b ≡ is_some (row_in s id)
unfolding is_known_contract_in
known-in s id b went = rw (← ok_inj went) (exists-find s.contracts id)

-- The transaction on the tables, with the laws that the chain updates rely on.
unfoldable pub postgres_tx : UpdateTx Tables SqlError
postgres_tx = record {
  contract_elements = contract_elements_of;
  is_known_contract = is_known_contract_in;
  delete_contract_elements = delete_contract_elements_in;
  update_contract_elements = update_contract_elements_in;
  update_contract_state = update_contract_state_in;
  update_contract_renewed_to = update_contract_renewed_to_in;
  row_of = row_in;
  element_of = element_in;
  listed = listed-in;
  known = known-in;
  deleted = deleted-in;
  written = written-in;
  state_updated = state_updated-in;
  renewed_to_updated = renewed_to_updated-in;
}
