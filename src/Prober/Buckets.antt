-- ===== src/Prober/Buckets.antt =====
-- `parseBuckets` of main.go. `strconv.ParseFloat` is a parameter, and so is the type of its values.
use smokeping_prober.Prelude.{
  List, [], ◌∷◌, ◌≡◌, ◌≢◌, ap, refl, ◌∙◌, All, map, Text, Result, ok, ◌>>=◌, split, join,
  split-join,
}

module _ {E F : Type 0} (parse_float : Text → Result E F) where
  -- The loop over the parts.
  parse_all : List Text → Result E (List F)
  parse_all [] = ok []
  parse_all (part ∷ parts) = do
    value ← parse_float part
    values ← parse_all parts
    ok (value ∷ values)

  unfoldable pub parse_buckets : Text → Result E (List F)
  unfolding parse_all
  parse_buckets buckets = parse_all (split buckets 44)

  module _ (format : F → Text)
      (prints : (x : F) → (parse_float (format x) ≡ ok x) × All (λ c. c ≢ 44) (format x)) where
    parse_all-map : (xs : List F) → parse_all (map format xs) ≡ ok xs
    unfolding parse_all
    parse_all-map [] = refl
    parse_all-map (x ∷ xs) = rw ((prints x).0, parse_all-map xs, parse_all) refl

    no_commas : (xs : List F) → All (λ u. All (λ c. c ≢ 44) u) (map format xs)
    no_commas [] = tt
    no_commas (x ∷ xs) = ((prints x).1, no_commas xs)

    -- Buckets that are printed without commas, in a form that `ParseFloat` reads back, and joined
    -- by commas are read back, all of them and in order, if there is one at least.
    pub parse_buckets-join :
        (x : F) (xs : List F) → parse_buckets (join (map format (x ∷ xs)) 44) ≡ ok (x ∷ xs)
    unfolding parse_buckets
    parse_buckets-join x xs =
        ap parse_all (split-join 44 (format x) (map format xs) (no_commas (x ∷ xs)))
        ∙ parse_all-map (x ∷ xs)
