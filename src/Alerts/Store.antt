-- ===== src/Alerts/Store.antt =====
-- What the manager finds after alerts were registered and dismissed.
use indexd.Base.{
  ℕ, zero, suc, ◌≡◌, ◌≢◌, refl, none, List, [], ◌∷◌, ◌==◌, if◌then◌else◌, contains, arith, inl, inr,
  ◌⊎◌,
}
use indexd.Base.Outcome.{ok, err}
use indexd.Alerts.{
  Alert, Manager, Error, not_found, zero_id, zero_timestamp, no_severity, alert, lookup, delete,
  dismiss_alerts, register_alert,
}

lookup-delete :
    (m : Manager) (k id : ℕ) → lookup (delete m k) id ≡ (if id == k then none else lookup m id)
unfolding lookup delete
lookup-delete [] k id = ground arith
lookup-delete (a ∷ m) k id = ground (arith, lookup-delete m k id)

lookup-dismiss :
    (m : Manager) (ids : List ℕ) (id : ℕ)
    → lookup (dismiss_alerts m ids) id ≡ (if contains ids id then none else lookup m id)
unfolding dismiss_alerts
lookup-dismiss m [] id = refl
lookup-dismiss m (k ∷ ids) id =
    ground (arith, lookup-dismiss (delete m k) ids id, lookup-delete m k id)

-- After a dismissal an alert is found exactly if it was found before and is not dismissed.
pub alert-dismiss_alerts :
    (m : Manager) (ids : List ℕ) (id : ℕ)
    → alert (dismiss_alerts m ids) id ≡ (if contains ids id then err not_found else alert m id)
unfolding alert
alert-dismiss_alerts m ids id = ground (arith, lookup-dismiss m ids id)

dec_zero : (n : ℕ) → (n ≡ 0) ⊎ (n ≢ 0)
dec_zero zero = inl refl
dec_zero (suc n) = inr (λ e. omega arith)

-- Registering an alert is refused exactly if its identifier, time or severity is missing. Otherwise
-- the alert is found under its identifier, in place of one that had it, and the others as before.
pub alert-register_alert :
    (m : Manager) (a : Alert)
    → ((e : Error) × (register_alert m a ≡ err e)
        × ((a.id ≡ 0) ⊎ ((a.timestamp ≡ 0) ⊎ (a.severity ≡ 0))))
      ⊎ ((n : Manager) × (register_alert m a ≡ ok n)
          × ((a.id ≢ 0) × (a.timestamp ≢ 0) × (a.severity ≢ 0))
          × ((id : ℕ) → alert n id ≡ (if id == a.id then ok a else alert m id)))
unfolding register_alert alert lookup
alert-register_alert m a = elim (dec_zero a.id) [
  | inl e ↦ inl (zero_id, ground arith, inl e)
  | inr ne ↦ elim (dec_zero a.timestamp) [
    | inl e ↦ inl (zero_timestamp, ground arith, inr (inl e))
    | inr nt ↦ elim (dec_zero a.severity) [
      | inl e ↦ inl (no_severity, ground arith, inr (inr e))
      | inr ns ↦ inr (
        a ∷ delete m a.id,
        ground arith,
        (ne, nt, ns),
        λ id. ground (arith, lookup-delete m a.id id),
      )
    ]
  ]
]
