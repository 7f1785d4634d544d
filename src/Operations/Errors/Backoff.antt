-- ===== src/Operations/Errors/Backoff.antt =====
-- Bounds and growth of `backoff_seconds` of backend/poi_admin/operations/service.py.
use native.Mathlib.Nat.{pow-suc}
use poi_hub.Base.{ℕ, zero, suc, ◌+◌, ◌-◌, ◌*◌, ◌^◌, ◌≤◌, ◌≡◌, arith}
use poi_hub.Operations.Errors.{backoff, second}

pow_pos : (n : ℕ) → 1 ≤ 2 ^ n
pow_pos zero = omega arith
pow_pos (suc n) = rw pow-suc (omega (arith, pow_pos n))

pow_ten : (n : ℕ) → 1024 ≤ 2 ^ (n + 10)
pow_ten zero = omega arith
pow_ten (suc n) =
    let e : suc n + 10 ≡ suc (n + 10) = omega arith in rw (e, pow-suc) (omega (arith, pow_ten n))

-- Each delay is between five seconds and one hour.
pub backoff_bounds :
    (jitter attempt : ℕ)
    → (5 * second ≤ backoff jitter attempt) × (backoff jitter attempt ≤ 3600 * second)
unfolding backoff
backoff_bounds jitter attempt = omega (arith, pow_pos (attempt - 1))

-- Jitter of a second or less never makes a later delay the shorter one, and from the eleventh
-- attempt on the delay is one hour.
backoff_mono : (j k n : ℕ) → j ≤ second → backoff j (suc n) ≤ backoff k (suc (suc n))
unfolding backoff
backoff_mono j k n h =
    let e : suc n - 1 ≡ n = omega arith in
    let e' : suc (suc n) - 1 ≡ suc n = omega arith in rw (e, e', pow-suc) (omega (arith, pow_pos n))

backoff_cap : (jitter attempt : ℕ) → 11 ≤ attempt → backoff jitter attempt ≡ 3600 * second
unfolding backoff
backoff_cap jitter attempt h =
    let e : attempt - 1 ≡ (attempt - 11) + 10 = omega arith in
    rw e (omega (arith, pow_ten (attempt - 11)))

-- From the first attempt on, with jitter of at most a second: the delay lies between five seconds
-- and one hour, the delay after one more attempt is not shorter, and ten attempts later the delay
-- is one hour.
backoff_schedule :
    (j k attempt : ℕ)
    → j ≤ second
    → 1 ≤ attempt
    → (5 * second ≤ backoff j attempt)
      × (backoff j attempt ≤ 3600 * second)
      × (backoff j attempt ≤ backoff k (attempt + 1))
      × (backoff j (attempt + 10) ≡ 3600 * second)
backoff_schedule j k zero h p = absurd (omega arith)
backoff_schedule j k (suc n) h p =
    let e : suc n + 1 ≡ suc (suc n) = omega arith in
    (
      (backoff_bounds j (suc n)).0,
      (backoff_bounds j (suc n)).1,
      rw e (backoff_mono j k n h),
      backoff_cap j (suc n + 10) (omega arith),
    )
