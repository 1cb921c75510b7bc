-- ===== src/Prelude/Strings.antt =====
-- The rest of the `strings` package that the prober uses, on ASCII text.
pub mod Trims
pub mod Occurs
use Prim.Native.Nat.{ℕ, ◌-◌}
use mathlib.Core.Bool.{Bool, true, false, ◌&&◌}
use mathlib.Core.List.{List, [], ◌∷◌, ◌++◌, append-nil, append_assoc}
use mathlib.Core.Path.{◌≡◌, sym, ap, ◌∙◌}
use mathlib.Core.Logic.{◌≢◌}
use native.Mathlib.Omega.{arith}
use mathlib.Core.Option.{Option, none, some}
use smokeping_prober.Prelude.Tests.{◌==◌, leb, if◌then◌else◌}
use smokeping_prober.Prelude.Lists.{is_empty, All}
use smokeping_prober.Prelude.Texts.{Text, text_eq}
use smokeping_prober.Prelude.Words.{is_space}

abbrev pub drop_while : (ℕ → Bool) → Text → Text
drop_while p [] = []
drop_while p (c ∷ s) = if p c then drop_while p s else c ∷ s

-- `TrimRight` with a set of bytes: what ends the text goes as long as it is in the set.
abbrev pub trim_right : (ℕ → Bool) → Text → Text
trim_right p [] = []
trim_right p (c ∷ s) = let rest = trim_right p s in if is_empty rest && p c then [] else c ∷ rest

-- `TrimSpace`
unfoldable pub trim_space : Text → Text
trim_space s = trim_right is_space (drop_while is_space s)

-- The text behind a prefix that it has.
abbrev pub strip_prefix : Text → Text → Option Text
strip_prefix [] s = some s
strip_prefix (p ∷ ps) [] = none
strip_prefix (p ∷ ps) (c ∷ s) = if p == c then strip_prefix ps s else none

abbrev pub has_prefix : Text → Text → Bool
has_prefix p s = elim (strip_prefix p s) [ some _ ↦ true | none ↦ false ]

-- `text[strings.Index(text, word):]`, with -1 as `none`.
unfoldable pub from_index : Text → Text → Option Text
from_index word [] = if is_empty word then some [] else none
from_index word (c ∷ s) =
    let rest = from_index word s in if has_prefix word (c ∷ s) then some (c ∷ s) else rest

-- `strings.Contains`
abbrev pub contains_text : Text → Text → Bool
contains_text s word = elim (from_index word s) [ some _ ↦ true | none ↦ false ]

-- The text before a suffix that it has: `TrimSuffix` where `HasSuffix` holds.
unfoldable pub strip_suffix : Text → Text → Option Text
strip_suffix suffix [] = if is_empty suffix then some [] else none
strip_suffix suffix (c ∷ s) =
    let rest = strip_suffix suffix s in
    if text_eq suffix (c ∷ s)
    then some []
    else elim rest [ some before ↦ some (c ∷ before) | none ↦ none ]

abbrev pub has_suffix : Text → Text → Bool
has_suffix s suffix = elim (strip_suffix suffix s) [ some _ ↦ true | none ↦ false ]

split_from : ℕ → Text → Text → List Text
split_from sep cur [] = cur ∷ []
split_from sep cur (c ∷ s) =
    let cut = cur ∷ split_from sep [] s in
    let more = split_from sep (cur ++ c ∷ []) s in if c == sep then cut else more

-- `Split` at a separator of one byte.
unfoldable pub split : Text → ℕ → List Text
unfolding split_from
split s sep = split_from sep [] s

-- `Join` with a separator of one byte.
abbrev pub join : List Text → ℕ → Text
join [] sep = []
join (t ∷ []) sep = t
join (t ∷ u ∷ ts) sep = t ++ sep ∷ join (u ∷ ts) sep

-- `ToUpper`
abbrev pub to_upper : Text → Text
to_upper [] = []
to_upper (c ∷ s) = (if leb b'a' c && leb c b'z' then c - 32 else c) ∷ to_upper s

-- `ReplaceAll` of one byte by nothing.
abbrev pub remove_byte : ℕ → Text → Text
remove_byte b [] = []
remove_byte b (c ∷ s) = if c == b then remove_byte b s else c ∷ remove_byte b s

passes :
    (sep : ℕ) (cur s : Text) (c : ℕ)
    → c ≢ sep
    → split_from sep cur (c ∷ s) ≡ split_from sep (cur ++ c ∷ []) s
unfolding split_from
passes sep cur s c h = ground arith

cuts : (sep : ℕ) (cur s : Text) → split_from sep cur (sep ∷ s) ≡ cur ∷ split_from sep [] s
unfolding split_from
cuts sep cur s = ground arith

split_from-append :
    (sep : ℕ) (cur t rest : Text)
    → All (λ c. c ≢ sep) t
    → split_from sep cur (t ++ rest) ≡ split_from sep (cur ++ t) rest
unfolding split_from
split_from-append sep cur [] rest h = ap (λ x. split_from sep x rest) (sym (append-nil cur))
split_from-append sep cur (c ∷ t) rest (hc, ht) =
    passes sep cur (t ++ rest) c hc
    ∙ split_from-append sep (cur ++ c ∷ []) t rest ht
    ∙ ap (λ x. split_from sep x rest) (append_assoc cur (c ∷ []) t)

split_from-join :
    (sep : ℕ) (cur t : Text) (ts : List Text)
    → All (λ u. All (λ c. c ≢ sep) u) (t ∷ ts)
    → split_from sep cur (join (t ∷ ts) sep) ≡ (cur ++ t) ∷ ts
unfolding split_from
split_from-join sep cur t [] (h, _) =
    ap (split_from sep cur) (sym (append-nil t)) ∙ split_from-append sep cur t [] h
split_from-join sep cur t (u ∷ ts) (h, hs) =
    split_from-append sep cur t (sep ∷ join (u ∷ ts) sep) h
    ∙ cuts sep (cur ++ t) (join (u ∷ ts) sep)
    ∙ ap (◌∷◌ (cur ++ t)) (split_from-join sep [] u ts hs)

-- Splitting what was joined, if no part holds the separator and there is one part at least.
pub split-join :
    (sep : ℕ) (t : Text) (ts : List Text)
    → All (λ u. All (λ c. c ≢ sep) u) (t ∷ ts)
    → split (join (t ∷ ts) sep) sep ≡ t ∷ ts
unfolding split
split-join sep t ts h = split_from-join sep [] t ts h
