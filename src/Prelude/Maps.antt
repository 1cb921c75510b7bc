-- ===== src/Prelude/Maps.antt =====
-- Go maps with string keys, as association lists in which the newest entry of a key counts.
use mathlib.Core.List.{List, [], ◌∷◌}
use mathlib.Core.Option.{Option, none, some}
use smokeping_prober.Prelude.Tests.{if◌then◌else◌}
use smokeping_prober.Prelude.Texts.{Text, text_eq}

abbrev pub Dict {ℓ} : Type ℓ → Type ℓ
Dict V = List (Text × V)

module _ {ℓ} {V : Type ℓ} where
  abbrev pub lookup : Text → Dict V → Option V
  lookup k [] = none
  lookup k ((j, v) ∷ m) = if text_eq j k then some v else lookup k m

  abbrev pub insert : Text → V → Dict V → Dict V
  insert k v m = (k, v) ∷ m
