-- ===== src/Prelude/Words.antt =====
-- `strings.Fields` and joining by spaces.
use Prim.Native.Nat.{ℕ}
use mathlib.Core.Path.{◌≡◌, refl}
use mathlib.Core.Logic.{◌≢◌}
use mathlib.Core.Bool.{Bool, false, ◌||◌, ◌&&◌}
use mathlib.Core.List.{List, [], ◌∷◌, ◌++◌, append-nil, append_assoc}
use native.Mathlib.Omega.{arith}
use smokeping_prober.Prelude.Tests.{◌==◌, leb, if◌then◌else◌}
use smokeping_prober.Prelude.Lists.{All, is_empty}
use smokeping_prober.Prelude.Texts.{Text}

-- The white space of ASCII: tab to carriage return, and the space.
abbrev pub is_space : ℕ → Bool
is_space c = c == 32 || (leb 9 c && leb c 13)

abbrev pub IsToken : Text → Type 0
IsToken t = (t ≢ []) × All (λ c. is_space c ≡ false) t

fields_from : Text → Text → List Text
fields_from cur [] = if is_empty cur then [] else cur ∷ []
fields_from cur (c ∷ s) =
    let cut = (if is_empty cur then fields_from [] s else cur ∷ fields_from [] s) in
    let more = fields_from (cur ++ c ∷ []) s in if is_space c then cut else more

-- `strings.Fields`
unfoldable pub fields : Text → List Text
unfolding fields_from
fields s = fields_from [] s

-- The tokens with a space between each two.
abbrev pub join_tokens : List Text → Text
join_tokens [] = []
join_tokens (t ∷ []) = t
join_tokens (t ∷ u ∷ ts) = t ++ 32 ∷ join_tokens (u ∷ ts)

fields_from-token :
    (cur t rest : Text)
    → All (λ c. is_space c ≡ false) t
    → fields_from cur (t ++ rest) ≡ fields_from (cur ++ t) rest
unfolding fields_from
fields_from-token cur [] rest h = rw append-nil
fields_from-token cur (c ∷ t) rest h =
    ground (arith, fields_from-token (cur ++ c ∷ []) t rest, append_assoc cur (c ∷ []) t)

fields_from_end : (t : Text) → t ≢ [] → fields_from t [] ≡ t ∷ []
unfolding fields_from
fields_from_end [] h = absurd (h refl)
fields_from_end (c ∷ t) h = refl

fields_from_space : (t rest : Text) → t ≢ [] → fields_from t (32 ∷ rest) ≡ t ∷ fields_from [] rest
unfolding fields_from
fields_from_space [] rest h = absurd (h refl)
fields_from_space (c ∷ t) rest h = refl

-- The fields of joined tokens are the tokens.
pub fields-join_tokens : (ts : List Text) → All IsToken ts → fields (join_tokens ts) ≡ ts
unfolding fields
fields-join_tokens [] h = unfold fields_from in refl
fields-join_tokens (t ∷ []) (token, _) =
    cc (fields_from-token [] t [] token.1, append-nil t, fields_from_end t token.0)
fields-join_tokens (t ∷ u ∷ ts) (token, h) =
    rw (
      fields_from-token [] t _ token.1,
      fields_from_space t _ token.0,
      fields-join_tokens (u ∷ ts) h,
    )
