-- ===== src/Remote/Huawei/Deadline.antt =====
-- `CommandDeadline` of remote/huawei.go, which computes in int64.
use smokeping_prober.Prelude.{
  mul_pos, ℕ, ◌+◌, ◌*◌, ◌^◌, ◌≤◌, ◌<◌, ℤ, pos, negsuc, ◌≤ℤ◌, ◌<ℤ◌, ◌+ℤ◌, wrap64, wrap64-pos, ◌≡◌,
  refl, arith, ◌-◌,
}
use smokeping_prober.Remote.Huawei.{Job, command_deadline}

abbrev pub IsInt64 : ℤ → Type 0
IsInt64 i = (negsuc (2 ^ 63 - 1) ≤ℤ i) × (i <ℤ pos (2 ^ 63))

wrap64-IsInt64 : (i : ℤ) → IsInt64 (wrap64 i)
unfolding wrap64
wrap64-IsInt64 (pos n) = ground arith
wrap64-IsInt64 (negsuc n) = ground arith

add_pos : (a b : ℕ) → pos a +ℤ pos b ≡ pos (a + b)
unfolding ◌+ℤ◌
add_pos a b = ground arith

le-mul : (c n : ℕ) → 0 < c → n ≤ c * n
le-mul c n h = grind arith

-- The deadline is an int64; and where the time that the pings can take and the reserve of five
-- seconds fit in one together, it is their sum.
pub command_deadline_lem :
    (j : Job)
    → IsInt64 (command_deadline j)
      × ((c t p : ℕ)
          → j.count ≡ pos c
          → j.timeout ≡ pos t
          → j.packet_interval ≡ pos p
          → 0 < c
          → c * (t + p) + 5_000_000_000 < 2 ^ 63
          → command_deadline j ≡ pos (c * (t + p) + 5_000_000_000))
unfolding command_deadline
command_deadline_lem j = (
  wrap64-IsInt64 _,
  λ c t p hc ht hp some fits.
      let n = t + p in
      let le : n ≤ c * n = le-mul c n some in
      rw
        (
          hc,
          ht,
          hp,
          add_pos t p,
          wrap64-pos n (omega (arith, le, fits)),
          mul_pos c n,
          wrap64-pos (c * n) (omega (arith, fits)),
          add_pos (c * n) 5_000_000_000,
          wrap64-pos (c * n + 5_000_000_000) fits,
        )
        refl,
)
