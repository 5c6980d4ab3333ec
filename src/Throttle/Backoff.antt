-- ===== src/Throttle/Backoff.antt =====
-- The delays of `backoffFor`.
use native.Mathlib.Nat.{pow-suc, pow-le-pow_right}
use alluredeck.Prelude.{ℕ, zero, suc, ◌+◌, ◌-◌, ◌*◌, ◌^◌, ◌≤◌, min, ◌≡◌, arith}
use alluredeck.Throttle.{backoff_for, second}

pow_bounded : (e : ℕ) → e ≤ 30 → 2 ^ e ≤ 2 ^ 30
pow_bounded e h = pow-le-pow_right (omega arith) h

-- With at least one failure, the delay is one second doubled for each further failure, thirty times
-- at most, and cut at the maximum: the int64 product never wraps, so the overflow guard never
-- decides.
pub backoff_for_closed :
    (count backoff_max : ℕ)
    → 1 ≤ count
    → backoff_for count backoff_max ≡ min (second * 2 ^ min (count - 1) 30) backoff_max
unfolding backoff_for
backoff_for_closed c b h = ground (arith, pow_bounded (min (c - 1) 30))

double_capped : (c : ℕ) → 1 ≤ c → c ≤ 30 → 2 ^ min (c + 1 - 1) 30 ≡ 2 ^ min (c - 1) 30 * 2
double_capped (suc k) h l =
    let left : min (suc k + 1 - 1) 30 ≡ suc k = omega arith in
    let right : min (suc k - 1) 30 ≡ k = omega arith in rw (left, right) (pow-suc 2 k)
double_capped zero h l = absurd (omega arith)

-- Up to the cap, one more failure doubles the delay, or reaches the maximum.
pub backoff_for-suc :
    (count backoff_max : ℕ)
    → 1 ≤ count
    → count ≤ 30
    → backoff_for (count + 1) backoff_max ≡ min (backoff_for count backoff_max * 2) backoff_max
backoff_for-suc c b h l = omega (
  arith,
  backoff_for_closed c b h,
  backoff_for_closed (c + 1) b (omega arith),
  double_capped c h l,
)

-- More failures never shorten the delay, and no delay passes the maximum.
pub backoff_for_mono :
    (c d backoff_max : ℕ)
    → c ≤ d
    → (backoff_for c backoff_max ≤ backoff_for d backoff_max)
      × (backoff_for d backoff_max ≤ backoff_max)
unfolding backoff_for
backoff_for_mono zero zero b h = ground arith
backoff_for_mono zero (suc d) b h =
    let e = backoff_for_closed (suc d) b (omega arith) in (ground arith, omega (arith, e))
backoff_for_mono (suc c) d b h =
    let e = backoff_for_closed (suc c) b (omega arith) in
    let f = backoff_for_closed d b (omega arith) in
    let p : 2 ^ min (suc c - 1) 30 ≤ 2 ^ min (d - 1) 30 =
      pow-le-pow_right (omega arith) (omega arith) in
    (omega (arith, e, f, p), omega (arith, f))
