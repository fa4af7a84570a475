-- ===== src/Alerts.antt =====
-- alerts/alerts.go: the manager of the alerts that a user sees. The map from identifiers to alerts is
-- an association list without repeated keys; the order in which Go walks the map, and the order that
-- `sort.Slice` gives to alerts of one time, are those of the parameter `sort`.
pub mod Store
pub mod Pages
mod Tests
use indexd.Base.{
  ℕ, Bool, true, false, not, ◌&&◌, Option, none, some, List, [], ◌∷◌, length, take, drop, keep, ltb,
  leb, ◌==◌, if◌then◌else◌,
}
use indexd.Base.Outcome.{Outcome, ok, err, fail_if, ◌>>=◌, ◌>>◌}
use indexd.Base.Int.{ℤ, pos, negsuc}

-- `Severity` is a uint8, and 0 is none. `Message` and `Data` are only handed on, as one number.
pub record Alert : Type 0 where
  pub id : ℕ
  pub severity : ℕ
  pub message : ℕ
  pub timestamp : ℕ

pub data Error : Type 0 where
  not_found zero_id zero_timestamp no_severity negative_offset negative_limit : Error

-- The alerts by their identifiers.
abbrev pub Manager : Type 0
Manager = List Alert

pub lookup : Manager → ℕ → Option Alert
lookup [] id = none
lookup (a ∷ m) id = if a.id == id then some a else lookup m id

-- `delete(m.alerts, id)`
pub delete : Manager → ℕ → Manager
delete [] id = []
delete (a ∷ m) id = if a.id == id then delete m id else a ∷ delete m id

pub alert : Manager → ℕ → Outcome Error Alert
unfolding lookup
alert m id = elim (lookup m id) [ none ↦ err not_found | some a ↦ ok a ]

pub dismiss_alerts : Manager → List ℕ → Manager
unfolding delete
dismiss_alerts m [] = m
dismiss_alerts m (id ∷ ids) = dismiss_alerts (delete m id) ids

pub register_alert : Manager → Alert → Outcome Error Manager
unfolding delete
register_alert m a = do
  fail_if (a.id == 0) zero_id
  fail_if (a.timestamp == 0) zero_timestamp
  fail_if (a.severity == 0) no_severity
  ok (a ∷ delete m a.id)

-- `alertQueryOpts`
abbrev wanted : Option ℕ → Alert → Bool
wanted none a = true
wanted (some severity) a = a.severity == severity

-- The offset and the limit, of which 0 is no limit.
page : ℕ → ℕ → List Alert → List Alert
page offset limit filtered =
    if leb (length filtered) offset
    then []
    else let rest = drop offset filtered in
      if ltb 0 limit && ltb limit (length rest) then take limit rest else rest

validate_offset_limit : ℤ → ℤ → Outcome Error (ℕ × ℕ)
validate_offset_limit (negsuc n) limit = err negative_offset
validate_offset_limit (pos offset) (negsuc n) = err negative_limit
validate_offset_limit (pos offset) (pos limit) = ok (offset, limit)

pub alerts : (List Alert → List Alert) → Manager → ℤ → ℤ → Option ℕ → Outcome Error (List Alert)
unfolding page validate_offset_limit
alerts sort m offset limit severity = do
  bounds ← validate_offset_limit offset limit
  ok (page bounds.0 bounds.1 (sort (keep (wanted severity) m)))
