-- ===== src/Alerts/Tests.antt =====
-- Three alerts, and the theorems of alerts/alerts.go at them.
use indexd.Base.{ℕ, ◌≡◌, refl, none, some, [], ◌∷◌}
use indexd.Base.Outcome.{ok, err}
use indexd.Base.Int.{pos, negsuc}
use indexd.Alerts.{Alert, Manager, negative_limit, alerts}

abbrev warning : ℕ → ℕ → Alert
warning id timestamp = record { id = id; severity = 2; message = 0; timestamp = timestamp }

abbrev manager : Manager
manager = warning 1 30 ∷ warning 2 20 ∷ warning 3 10 ∷ []

second_page : alerts (λ xs. xs) manager (pos 1) (pos 1) (some 2) ≡ ok (warning 2 20 ∷ [])
unfolding alerts
second_page = refl

negative : alerts (λ xs. xs) manager (pos 1) (negsuc 0) none ≡ err negative_limit
unfolding alerts
negative = refl

abbrev newer : Alert
newer = warning 2 40
