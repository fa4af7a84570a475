-- ===== src/Contracts/Pinning/Room.antt =====
-- How many sectors `pinSectors` appends to a contract at most.
use native.Mathlib.Nat.{div-mul-le_self, mul-le-mul_right}
use indexd.Base.{
  ℕ, ◌+◌, ◌-◌, ◌*◌, ◌/◌, ◌%◌, ◌≡◌, ◌≤◌, ◌<◌, ap, min, leb, ◌==◌, arith, Bool-cases, ==_iff, inl,
  inr,
}
use indexd.Base.Outcome.{ok, ok_inj, value_of, value_of_option, panic_if}
use indexd.Base.Words.{add64, sub64, u64_mod}
use indexd.Base.Currency.{CurrencyOps}
use indexd.Base.Proto.{Proto}
use indexd.Contracts.Revision.{Revision, RevisionStore}
use indexd.Contracts.Pinning.{PinCalls, room, paid_room, max_append_sectors, or_one}

-- A quotient of what is there, times the price, is there.
quotient-le : (n m have cost : ℕ) → m ≡ have / or_one cost → n ≤ m → n * cost ≤ have
quotient-le n m have cost e le = elim (Bool-cases (cost == 0)) [
  | inl free ↦ let nothing : cost ≡ 0 = (==_iff cost 0).0 free in rw nothing (omega arith)
  | inr priced ↦
      let within : n ≤ have / or_one cost = omega (arith, le, e) in
      let whole : n ≤ have / cost = rw priced at within in
      omega (arith, mul-le-mul_right cost whole, div-mul-le_self have cost)
]

module _ {S W Usage Prices : Type 0} (ops : CurrencyOps) (proto : Proto Prices)
    (db : RevisionStore S Usage) (calls : PinCalls S W Usage Prices) (buffer max_size : ℕ) where
  open ops use {div}
  open proto use {sector_size, append_renter_cost, append_risked_collateral}

  room_lem :
      (r : Revision) (by_collateral by_allowance n : ℕ)
      → room ops proto db calls buffer max_size r by_collateral by_allowance ≡ ok n
      → r.filesize < max_size
      → r.filesize ≤ r.capacity
      → r.capacity < u64_mod
      → let paid = n - (r.capacity - r.filesize) / sector_size in
        (0 < n)
        × (r.filesize + n * sector_size ≤ max_size)
        × (paid ≤ by_allowance)
        × (paid ≤ by_collateral)
  unfolding room
  room_lem r by_collateral by_allowance n went below small fits =
      let free = sub64 r.capacity r.filesize / sector_size in
      let no_wrap : sub64 r.capacity r.filesize ≡ r.capacity - r.filesize = omega arith in
      let same : free ≡ (r.capacity - r.filesize) / sector_size =
        ap (λ x. x / sector_size) no_wrap in
      let remaining = (max_size - r.filesize) / sector_size in
      let whole = div-mul-le_self (max_size - r.filesize) sector_size in
      let paid = min (by_allowance % u64_mod) (by_collateral % u64_mod) in
      let m = min (add64 free paid) remaining in
      elim (Bool-cases (m == 0)) [
        | inl none_left ↦ absurd (cc (rw none_left at went))
        | inr some_left ↦
            let e : m ≡ n = ok_inj (rw some_left at went) in
            let few : n ≤ remaining = omega (arith, e) in
            let within = mul-le-mul_right sector_size few in
            (
              ground (arith, e, some_left),
              omega (arith, whole, within),
              omega (arith, e, same),
              omega (arith, e, same),
            )
      ]

  -- A contract of a size within its capacity takes at least one sector, stays within the maximum
  -- size, and can pay, from its allowance and its collateral, for the sectors beyond its capacity.
  pub max_append_sectors_lem :
      (prices : Prices) (r : Revision) (n : ℕ)
      → max_append_sectors ops proto db calls buffer max_size prices r ≡ ok n
      → r.filesize ≤ r.capacity
      → r.capacity < u64_mod
      → let duration = r.expiration_height - calls.tip_height prices in
        let paid = n - (r.capacity - r.filesize) / sector_size in
        (0 < n)
        × (r.filesize + n * sector_size ≤ max_size)
        × (paid * append_renter_cost prices 1 duration ≤ r.remaining_allowance)
        × (paid * append_risked_collateral prices 1 duration ≤ r.remaining_collateral)
  unfolding max_append_sectors paid_room
  max_append_sectors_lem prices r n went small fits = elim (Bool-cases (leb max_size r.filesize)) [
    | inl big ↦ absurd (cc (rw big at went))
    | inr below ↦ elim (Bool-cases (leb r.expiration_height (calls.tip_height prices))) [
      | inl expired ↦ absurd (cc (rw (below, expired) at went))
      | inr live ↦
          let duration = r.expiration_height - calls.tip_height prices in
          let collateral = or_one (append_risked_collateral prices 1 duration) in
          let cost = or_one (append_renter_cost prices 1 duration) in
          let no_overflow =
            value_of _ (panic_if (proto.append_overflows prices 1 duration))
              (rw (below, live) at went) in
          let first = value_of_option _ (div r.remaining_collateral collateral) no_overflow.2 in
          let second = value_of_option _ (div r.remaining_allowance cost) first.2 in
          let bounds = room_lem r first.0 second.0 n second.2 (ground arith) small fits in
          (
            bounds.0,
            bounds.1,
            quotient-le _ second.0 r.remaining_allowance _
                (ops.div_value r.remaining_allowance cost second.0 second.1) bounds.2,
            quotient-le _ first.0 r.remaining_collateral _
                (ops.div_value r.remaining_collateral collateral first.0 first.1) bounds.3,
          )
    ]
  ]
