-- ===== src/Remote/Session/Reading.antt =====
-- `readLoop`: from what the connection gives to the signals of a session.
use smokeping_prober.Prelude.{
  Bool, true, false, List, [], ◌∷◌, ◌++◌, map, ◌≡◌, ◌≢◌, refl, ap, arith, All, Text, is_empty,
  is_empty_iff, inl, inr, if◌then◌else◌, Bool-cases,
}
use smokeping_prober.Remote.Session.{Signal, chunk, closes}
use smokeping_prober.Remote.Session.Wait.{joined}

-- What a call of `Read` gives: the bytes that it has read, maybe none, and whether it has an error.
pub record Read : Type 0 where
  pub bytes : Text
  pub failed : Bool

-- `readLoop` on the calls of `Read` that return, in order.
unfoldable pub read_loop : List Read → List Signal
read_loop [] = []
read_loop (r ∷ reads) =
    let rest = read_loop reads in
    let after = if r.failed then closes ∷ [] else rest in
    if is_empty r.bytes then after else chunk r.bytes ∷ after

-- Reads without an error.
abbrev pub reads_of : List Text → List Read
reads_of = map (λ b. record { bytes = b; failed = false })

nothing : (b : Text) {s t : Text} → is_empty b ≡ true → s ≡ t → s ≡ b ++ t
nothing [] e whole = whole
nothing (c ∷ b) e whole = absurd (ground arith)

something : (b : Text) → is_empty b ≡ false → b ≢ []
something b e none_left = absurd (ground (arith, is_empty_iff b))

-- The chunks of reads without an error are not empty, and hold the bytes that were read, in order.
pub read_loop-chunks :
    (bs : List Text)
    → (cs : List Text) × (read_loop (reads_of bs) ≡ map chunk cs)
      × All (λ c. c ≢ []) cs
      × (joined cs ≡ joined bs)
unfolding read_loop
read_loop-chunks [] = ([], refl, tt, refl)
read_loop-chunks (b ∷ bs) =
    let (cs, same, some_bytes, whole) = read_loop-chunks bs in
    elim (Bool-cases (is_empty b)) [
      | inl e ↦ (cs, ground arith, some_bytes, nothing b e whole)
      | inr e ↦ (b ∷ cs, ground arith, (something b e, some_bytes), ap (λ s. b ++ s) whole)
    ]
