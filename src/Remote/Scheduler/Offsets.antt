-- ===== src/Remote/Scheduler/Offsets.antt =====
-- How `Start` of remote/scheduler.go spreads the first runs of the targets over their interval.
use native.Mathlib.Nat.{
  div-mul-le_self, le-div_iff_mul-le, div-lt_iff_lt-mul, mul-le-mul_left, mul-lt-mul_of_pos_left,
}
use smokeping_prober.Prelude.{
  ℕ, ◌+◌, ◌*◌, ◌/◌, ◌^◌, ◌≤◌, ◌<◌, pos, ◌≡◌, refl, arith, mul_pos, wrap64-pos,
}
use smokeping_prober.Remote.Scheduler.{offset}

offset-pos : (m i n : ℕ) → i < n → m * n < 2 ^ 63 → offset (pos m) i n ≡ pos (m * i / n)
unfolding offset
offset-pos m i n h fits =
    let small : m * i ≤ m * n = mul-le-mul_left m (omega (arith, h)) in
    rw (mul_pos m i, wrap64-pos (m * i) (omega (arith, small, fits))) refl

shares : (m i d n a q : ℕ) → a * n ≤ m * i → q * n ≤ m → (a + d * q) * n ≤ m * (i + d)
shares m i d n a q ha hq = let more : d * (q * n) ≤ d * m = mul-le-mul_left d hq in grind arith

-- If an interval is positive and the count of the targets times the interval is an int64, then the
-- first runs of two targets with this interval are within the first interval, and as many equal
-- shares of it apart as their places among the targets, at least.
pub offset_lem :
    (m i d n : ℕ)
    → 0 < m
    → i + d < n
    → m * n < 2 ^ 63
    → (a b : ℕ) × (offset (pos m) i n ≡ pos a)
      × (offset (pos m) (i + d) n ≡ pos b)
      × (a + d * (m / n) ≤ b)
      × (b < m)
offset_lem m i d n some_time h fits =
    let some_target : 0 < n = omega (arith, h) in
    (
      m * i / n,
      m * (i + d) / n,
      offset-pos m i n (omega (arith, h)) fits,
      offset-pos m (i + d) n h fits,
      (le-div_iff_mul-le some_target).1
          (shares m i d n (m * i / n) (m / n) (div-mul-le_self (m * i) n) (div-mul-le_self m n)),
      (div-lt_iff_lt-mul some_target).1 (mul-lt-mul_of_pos_left h some_time),
    )
