-- ===== src/Client/Provider/Decay.antt =====
-- The halvings of a failure rate, as time goes by.
use indexd.Base.{ℕ, ◌+◌, ◌-◌, ◌%◌, ◌≡◌, ◌≤◌, arith}
use indexd.Client.Provider.{Floats, FailureRate, half_lives, decay, failure_rate_half_life}

module _ (floats : Floats) where
  -- A decay leaves less than one half life of time for the next one.
  pub decay-last_decay :
      (now : ℕ) (fr : FailureRate floats)
      → fr.last_decay ≤ now
      → ((decay floats now fr).last_decay ≤ now)
        × (now - (decay floats now fr).last_decay ≡ (now - fr.last_decay) % failure_rate_half_life)
  unfolding decay half_lives
  decay-last_decay now fr le = (omega arith, omega arith)

  -- For a clock that does not go back, a decay at one time and then at a later one comes to the same
  -- time of the last decay as the one decay at the later time, and their half lives add up to that
  -- decay's.
  pub decay-decay :
      (earlier later : ℕ) (fr : FailureRate floats)
      → fr.last_decay ≤ earlier
      → earlier ≤ later
      → ((decay floats later (decay floats earlier fr)).last_decay
          ≡ (decay floats later fr).last_decay)
        × (half_lives floats earlier fr + half_lives floats later (decay floats earlier fr)
            ≡ half_lives floats later fr)
  unfolding decay half_lives
  decay-decay earlier later fr le le' = (omega arith, omega arith)
