-- ===== src/RetryQueue/Backoff.antt =====
-- The wait before a retry.
use native.Mathlib.Nat.{pow-suc}
use jasm.Base.{ℕ, zero, suc, pos, negsuc, ◌*◌, ◌^◌, ◌≤◌, ◌<◌, min, ◌≡◌, refl, arith}
use jasm.RetryQueue.{RetryQueue, backoff_loop, calculate_backoff}

pow_pos : (n : ℕ) → 1 ≤ 2 ^ n
pow_pos zero = omega arith
pow_pos (suc n) = omega (arith, pow-suc 2 n, pow_pos n)

times_pow : (b n : ℕ) → b * 2 ^ suc n ≡ b * 2 * 2 ^ n
times_pow b n = grind (arith, pow-suc 2 n)

le_times_pow : (b n : ℕ) → b ≤ b * 2 ^ n
le_times_pow b n = grind (arith, pow_pos n)

backoff_loop_lem :
    (n max b : ℕ) → b ≤ max → max < 2 ^ 62 → backoff_loop n max b ≡ min (b * 2 ^ n) max
unfolding backoff_loop
backoff_loop_lem zero max b h fits = omega arith
backoff_loop_lem (suc n) max b h fits =
    ground (arith, backoff_loop_lem n max (b * 2), times_pow b n, le_times_pow (b * 2) n)

-- Before attempt n + 1 the wait is the base doubled n times, capped at the maximum, with no overflow,
-- where the base is at most the maximum and the maximum is below 2^62 nanoseconds. There is no wait
-- before attempt zero or a negative one.
pub calculate_backoff_exact :
    (q : RetryQueue)
    → q.base_backoff ≤ q.max_backoff
    → q.max_backoff < 2 ^ 62
    → ((n : ℕ) → calculate_backoff q (pos (suc n)) ≡ min (q.base_backoff * 2 ^ n) q.max_backoff)
      × (calculate_backoff q (pos 0) ≡ 0)
      × ((n : ℕ) → calculate_backoff q (negsuc n) ≡ 0)
unfolding calculate_backoff
calculate_backoff_exact q h fits =
    (λ n. backoff_loop_lem n q.max_backoff q.base_backoff h fits, refl, λ n. refl)
