-- ===== src/Prelude/Strings/Trims.antt =====
-- Laws of `Split`, `Join`, `Contains` and `TrimRight`.
use Prim.Native.Nat.{ℕ}
use mathlib.Core.Bool.{true}
use mathlib.Core.List.{List, [], ◌∷◌, ◌++◌, append-nil, append_assoc}
use mathlib.Core.Path.{◌≡◌, refl, sym, ◌∙◌}
use mathlib.Core.Logic.{◌≢◌}
use native.Mathlib.Omega.{arith}
use mathlib.Core.Option.{some}
use smokeping_prober.Prelude.Lists.{is_empty_iff, All}
use smokeping_prober.Prelude.Texts.{Text}
use smokeping_prober.Prelude.Words.{is_space}
use smokeping_prober.Prelude.Strings.{
  split, split_from, split_from-append, cuts, join, contains_text, from_index, strip_prefix,
  trim_right,
}

split_from-ne-nil : (sep : ℕ) (cur s : Text) → split_from sep cur s ≢ []
unfolding split_from
split_from-ne-nil sep cur [] e = cc
split_from-ne-nil sep cur (c ∷ s) e = ground (arith, split_from-ne-nil sep (cur ++ c ∷ []) s)

join-cons :
    (t : Text) (us : List Text) (sep : ℕ) → us ≢ [] → join (t ∷ us) sep ≡ t ++ sep ∷ join us sep
join-cons t [] sep h = absurd (h refl)
join-cons t (u ∷ us) sep h = refl

join-split_from : (sep : ℕ) (cur s : Text) → join (split_from sep cur s) sep ≡ cur ++ s
unfolding split_from
join-split_from sep cur [] = sym (append-nil cur)
join-split_from sep cur (c ∷ s) = ground (
  arith,
  join-cons cur (split_from sep [] s) sep (split_from-ne-nil sep [] s),
  join-split_from sep [] s,
  join-split_from sep (cur ++ c ∷ []) s,
  append_assoc cur (c ∷ []) s,
)

-- Joining what was split.
pub join-split : (sep : ℕ) (s : Text) → join (split s sep) sep ≡ s
unfolding split
join-split sep s = join-split_from sep [] s

-- The first part ends at the first separator.
pub split-first :
    (sep : ℕ) (t s : Text) → All (λ c. c ≢ sep) t → split (t ++ sep ∷ s) sep ≡ t ∷ split s sep
unfolding split
split-first sep t s h = split_from-append sep [] t (sep ∷ s) h ∙ cuts sep t s

strip_prefix-same : (w : Text) → strip_prefix w w ≡ some []
strip_prefix-same [] = refl
strip_prefix-same (c ∷ w) = ground (arith, strip_prefix-same w)

pub contains_text-same : (w : Text) → contains_text w w ≡ true
unfolding from_index
contains_text-same [] = refl
contains_text-same (c ∷ w) = ground (arith, strip_prefix-same (c ∷ w))

-- What a text becomes when white space at its end goes, if something is left.
pub record Trims (t u : Text) : Type 0 where
  pub left : trim_right is_space t ≡ u
  pub some_left : u ≢ []

append-ne-nil : (u t : Text) → t ≢ [] → u ++ t ≢ []
append-ne-nil [] t h e = h e
append-ne-nil (c ∷ u) t h e = cc

trim_right-front :
    (u t v : Text) → trim_right is_space t ≡ v → v ≢ [] → trim_right is_space (u ++ t) ≡ u ++ v
trim_right-front [] t v h some_left = h
trim_right-front (c ∷ u) t v h some_left =
    let rest = trim_right-front u t v h some_left in
    let kept = append-ne-nil u v some_left in
    ground (arith, is_empty_iff (trim_right is_space (u ++ t)))

pub Trims-front : (u : Text) {t v : Text} → Trims t v → Trims (u ++ t) (u ++ v)
Trims-front u {t = t} {v = v} h = record {
  left = trim_right-front u t v h.left h.some_left;
  some_left = append-ne-nil u v h.some_left;
}
