-- ===== src/Utils/Redis/Delays.antt =====
-- The delays between the attempts to connect: `retryStrategy` of src/utils/redis.ts.
use transaction_service.Shared.{
  ℕ, zero, suc, ◌+◌, ◌*◌, ◌≤◌, ◌≡◌, refl, ap, ◌-◌, arith, leb, if◌then◌else◌, Bool-cases, inl, inr,
}
use transaction_service.Utils.Redis.{retry_delay}

-- The delays before the attempts up to the `n`-th.
abbrev pub total_delay : ℕ → ℕ
total_delay zero = 0
total_delay (suc n) = total_delay n + retry_delay (suc n)

short_delay : (n : ℕ) → n ≤ 40 → retry_delay n ≡ n * 50
unfolding retry_delay
short_delay n h = ground arith

long_delay : (n : ℕ) → 40 ≤ n → retry_delay n ≡ 2000
unfolding retry_delay
long_delay n h = ground arith

delay_bound : (n : ℕ) → retry_delay n ≤ 2000
unfolding retry_delay
delay_bound n = ground arith

delay_grows : (n : ℕ) → retry_delay n ≤ retry_delay (suc n)
unfolding retry_delay
delay_grows n = ground arith

total_short : (n : ℕ) → n ≤ 40 → total_delay n ≡ 25 * (n * (n + 1))
total_short zero h = refl
total_short (suc n) h = omega (arith, total_short n, short_delay (suc n), h)

total_bound : (n : ℕ) → total_delay n ≤ 2000 * n
total_bound zero = omega arith
total_bound (suc n) = omega (arith, total_bound n, delay_bound (suc n))

total_long : (k : ℕ) → total_delay (k + 40) + 39000 ≡ 2000 * (k + 40)
total_long zero = omega (arith, total_short 40 (omega arith))
total_long (suc k) =
    omega (arith, total_long k, long_delay (suc (k + 40)) (omega arith), ap total_delay same)
  where
    same : suc k + 40 ≡ suc (k + 40)
    same = omega arith

total_late : (n : ℕ) → 40 ≤ n → total_delay n + 39000 ≡ 2000 * n
total_late n h = omega (arith, total_long (n - 40), ap total_delay same, same)
  where
    same : n ≡ n - 40 + 40
    same = omega (arith, h)

total_is : (n : ℕ) → total_delay n ≡ (if leb n 40 then 25 * (n * (n + 1)) else 2000 * n - 39000)
total_is n = elim (Bool-cases (leb n 40)) [
  | inl short ↦ rw short (total_short n (ground (arith, short)))
  | inr long ↦ rw long (omega (arith, total_late n (ground (arith, long))))
]

-- The n-th attempt to connect again waits for two seconds at most, and no longer than the attempt
-- after it. The delays before the first n attempts add up to 25 n (n + 1) milliseconds as long as
-- n is 40 at most, from there on to 39 seconds less than 2 n, and never to more than 2 n seconds.
pub total_delay_bounds :
    (n : ℕ)
    → (retry_delay n ≤ 2000)
      × (retry_delay n ≤ retry_delay (suc n))
      × (total_delay n ≡ (if leb n 40 then 25 * (n * (n + 1)) else 2000 * n - 39000))
      × (total_delay n ≤ 2000 * n)
total_delay_bounds n = (delay_bound n, delay_grows n, total_is n, total_bound n)
