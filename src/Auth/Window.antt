-- ===== src/Auth/Window.antt =====
-- The time window of internal/util/signature.go.
use pusher.Prelude.{ℕ, ◌+◌, ◌≤◌, ◌<◌, ◌≡◌, ◌↔◌, ◌⊎◌, true, arith, pos, negsuc}
use pusher.Auth.{check_timestamp, two63}

-- A request time of 1970 or later is accepted exactly from less than 600 seconds before the server's
-- time up to 5 seconds after it.
pub check_timestamp_window :
    (now t : ℕ)
    → now < 4611686018427387904
    → t < two63
    → (check_timestamp (pos now) (pos t) (pos 600) ≡ true) ↔ ((now < t + 600) × (t ≤ now + 5))
unfolding check_timestamp
check_timestamp_window now t hn ht = (λ h. ground arith, λ h. ground arith)

-- A negative request time -(k + 1) is accepted exactly if it lies in the window, or so far in the past
-- that the difference to the server's time overflows an int64.
pub check_timestamp_negative :
    (now k : ℕ)
    → now < 4611686018427387904
    → k < two63
    → (check_timestamp (pos now) (negsuc k) (pos 600) ≡ true)
      ↔ ((now + k + 1 < 600) ⊎ (two63 ≤ now + k + 1))
unfolding check_timestamp
check_timestamp_negative now k hn hk = (λ h. ground arith, λ h. ground arith)
