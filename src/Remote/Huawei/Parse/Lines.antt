-- ===== src/Remote/Huawei/Parse/Lines.antt =====
-- The output of the router for a ping run, line by line, and what the regular expressions of
-- remote/huawei.go find in it.
use smokeping_prober.Prelude.{
  ℕ, Bool, true, false, some, [], ◌∷◌, ◌++◌, ◌≡◌, ◌⊎◌, refl, sym, ◌∙◌, ap, arith, Text, codes, All,
  All-map, any, show_ℕ, IsDigit, append_assoc, ◌≤◌,
}
use smokeping_prober.Prelude.Matching.{is_digit, spaces, spaces1, find, find_all}
use smokeping_prober.Prelude.Matching.Search.{find_all-Moves, find_all-match, any-false}
use smokeping_prober.Remote.Huawei.Parse.{count_re, reply_re, timeout_re}
use smokeping_prober.Remote.Huawei.Parse.Passing.{
  Ends, digits1-show_ℕ, spaces-show_ℕ, reply_head, timeout_head, no_count, past_reply, past_timeout,
  past_count, past_word, past_number, digits_silent,
}

-- A byte of an address as `IP.String` prints it.
abbrev pub IsAddressByte : ℕ → Type 0
IsAddressByte c = IsDigit c ⊎ ((b'a' ≤ c) × (c ≤ b'f')) ⊎ (c ≡ b'.') ⊎ (c ≡ b':')

-- The answer to one packet, with its number, its TTL and its milliseconds, or none.
pub data Answer : Type 0 where
  answered : ℕ → ℕ → ℕ → Answer
  unanswered : Answer

-- Where the format of IPv6 differs.
abbrev pub data_sep : Bool → Text
data_sep v6 = elim v6 [ true ↦ codes "\n    bytes=" | false ↦ codes ": bytes=" ]

abbrev pub ttl_name : Bool → Text
ttl_name v6 = elim v6 [ true ↦ codes " hop limit=" | false ↦ codes " ttl=" ]

-- Sequence=1 ttl=59 time=24 ms
abbrev pub data_tail : Bool → ℕ → ℕ → ℕ → Text → Text
data_tail v6 seq ttl ms rest =
    codes "equence="
    ++ (show_ℕ seq
        ++ (ttl_name v6
            ++ (show_ℕ ttl ++ (codes " time=" ++ (show_ℕ ms ++ (codes " ms" ++ rest))))))

abbrev pub print_data : Bool → ℕ → ℕ → ℕ → Text → Text
print_data v6 seq ttl ms rest = b'S' ∷ data_tail v6 seq ttl ms rest

module _ (v6 : Bool) (address : Text) (size : ℕ) where
  abbrev pub print_answer : Answer → Text → Text
  print_answer (answered seq ttl ms) rest =
      codes "    Reply from "
      ++ (address
          ++ (data_sep v6
              ++ (show_ℕ size ++ (codes " " ++ print_data v6 seq ttl ms (codes "\n" ++ rest)))))
  print_answer unanswered rest = codes "    Request time out\n" ++ rest

data_tail-append :
    (v6 : Bool) (seq ttl ms : ℕ) (rest : Text)
    → data_tail v6 seq ttl ms rest ≡ data_tail v6 seq ttl ms [] ++ rest
data_tail-append true seq ttl ms rest = simp append_assoc
data_tail-append false seq ttl ms rest = simp append_assoc

reply_re-data :
    (v6 : Bool) (seq ttl ms : ℕ) (rest : Text)
    → reply_re (print_data v6 seq ttl ms rest) ≡ some ((show_ℕ seq, show_ℕ ttl, show_ℕ ms), rest)
unfolding reply_re spaces1 spaces
reply_re-data true seq ttl ms rest =
    rw
      (
        digits1-show_ℕ seq _ refl,
        digits1-show_ℕ ttl _ refl,
        spaces-show_ℕ ms _,
        digits1-show_ℕ ms _ refl,
      )
      refl
reply_re-data false seq ttl ms rest =
    rw
      (
        digits1-show_ℕ seq _ refl,
        digits1-show_ℕ ttl _ refl,
        spaces-show_ℕ ms _,
        digits1-show_ℕ ms _ refl,
      )
      refl

find_all-data :
    (v6 : Bool) (seq ttl ms : ℕ) (rest : Text)
    → find_all reply_re (print_data v6 seq ttl ms rest)
      ≡ (show_ℕ seq, show_ℕ ttl, show_ℕ ms) ∷ find_all reply_re rest
find_all-data v6 seq ttl ms rest =
    let split = data_tail-append v6 seq ttl ms rest in
    let found = ap (λ s. reply_re (b'S' ∷ s)) (sym split) ∙ reply_re-data v6 seq ttl ms rest in
    ap (λ s. find_all reply_re (b'S' ∷ s)) split
    ∙ find_all-match reply_re b'S' (data_tail v6 seq ttl ms []) rest _ found

-- No count starts at the end of an address or of a number in front of these.
data_sep-blocks :
    (word : Text) (v6 : Bool) (s : Text)
    → Ends (data_sep v6 ++ s) × (no_count word (data_sep v6 ++ s) ≡ true)
unfolding no_count spaces1
data_sep-blocks word true s = (refl, refl)
data_sep-blocks word false s = (refl, refl)

ttl_name-blocks :
    (word : Text) (v6 : Bool) (s : Text)
    → Ends (ttl_name v6 ++ s) × (no_count word (ttl_name v6 ++ s) ≡ true)
unfolding no_count spaces1
ttl_name-blocks word true s = (refl, refl)
ttl_name-blocks word false s = (refl, refl)

separators_silent :
    (v6 : Bool)
    → (any reply_head (data_sep v6) ≡ false)
      × (any timeout_head (data_sep v6) ≡ false)
      × (any timeout_head (ttl_name v6) ≡ false)
      × (any is_digit (data_sep v6) ≡ false)
      × (any is_digit (ttl_name v6) ≡ false)
separators_silent true = (refl, refl, refl, refl, refl)
separators_silent false = (refl, refl, refl, refl, refl)

module _ (v6 : Bool) (address : Text) (size : ℕ) (bytes : All IsAddressByte address) where
  -- A reply adds its three numbers to what the expression for replies finds.
  pub print_answer-replies :
      (a : Answer) (rest : Text)
      → find_all reply_re (print_answer v6 address size a rest) ≡ (elim a [
        | answered seq ttl ms ↦ (show_ℕ seq, show_ℕ ttl, show_ℕ ms) ∷ find_all reply_re rest
        | unanswered ↦ find_all reply_re rest
      ])
  print_answer-replies unanswered rest = past_reply (codes "    Request time out\n") rest refl
  print_answer-replies (answered seq ttl ms) rest =
      past_reply (codes "    Reply from ") _ refl
      ∙ past_reply address _ (any-false reply_head address (λ c h. ground arith) bytes)
      ∙ past_reply (data_sep v6) _ (separators_silent v6).0
      ∙ past_reply (show_ℕ size) _ (digits_silent reply_head size λ c h. ground arith)
      ∙ past_reply (codes " ") _ refl
      ∙ find_all-data v6 seq ttl ms (codes "\n" ++ rest)
      ∙ ap (λ found. (show_ℕ seq, show_ℕ ttl, show_ℕ ms) ∷ found)
          (past_reply (codes "\n") rest refl)

  pub print_answer-timeouts :
      (a : Answer) (rest : Text)
      → find_all timeout_re (print_answer v6 address size a rest) ≡ (elim a [
        | answered _ _ _ ↦ find_all timeout_re rest
        | unanswered ↦ tt ∷ find_all timeout_re rest
      ])
  unfolding timeout_re
  print_answer-timeouts unanswered rest =
      past_timeout (codes "    ") _ refl
      ∙ find_all-match timeout_re b'R' (codes "equest time out") (codes "\n" ++ rest) tt refl
      ∙ ap (λ found. tt ∷ found) (past_timeout (codes "\n") rest refl)
  print_answer-timeouts (answered seq ttl ms) rest =
      past_timeout (codes "    ") _ refl
      ∙ find_all-Moves timeout_re b'R' _ refl
      ∙ past_timeout (codes "eply from ") _ refl
      ∙ past_timeout address _ (any-false timeout_head address (λ c h. ground arith) bytes)
      ∙ past_timeout (data_sep v6) _ (separators_silent v6).1
      ∙ past_timeout (show_ℕ size) _ (digits_silent timeout_head size λ c h. ground arith)
      ∙ past_timeout (codes " Sequence=") _ refl
      ∙ past_timeout (show_ℕ seq) _ (digits_silent timeout_head seq λ c h. ground arith)
      ∙ past_timeout (ttl_name v6) _ (separators_silent v6).2
      ∙ past_timeout (show_ℕ ttl) _ (digits_silent timeout_head ttl λ c h. ground arith)
      ∙ past_timeout (codes " time=") _ refl
      ∙ past_timeout (show_ℕ ms) _ (digits_silent timeout_head ms λ c h. ground arith)
      ∙ past_timeout (codes " ms\n") rest refl

  pub print_answer-count :
      (word : Text) (a : Answer) (rest : Text)
      → find (count_re word) (print_answer v6 address size a rest) ≡ find (count_re word) rest
  unfolding no_count spaces1
  print_answer-count word unanswered rest =
      past_count word (codes "    Request time out\n") rest refl
  print_answer-count word (answered seq ttl ms) rest =
      past_count word (codes "    Reply from ") _ refl
      ∙ past_word word address _ (All-map address (λ c h. ground arith) bytes)
          (data_sep-blocks word v6 _).0 (data_sep-blocks word v6 _).1
      ∙ past_count word (data_sep v6) _ (separators_silent v6).3
      ∙ past_number word size _ refl refl
      ∙ past_count word (codes " Sequence=") _ refl
      ∙ past_number word seq _ (ttl_name-blocks word v6 _).0 (ttl_name-blocks word v6 _).1
      ∙ past_count word (ttl_name v6) _ (separators_silent v6).4
      ∙ past_number word ttl _ refl refl
      ∙ past_count word (codes " time=") _ refl
      ∙ past_number word ms _ refl refl
      ∙ past_count word (codes " ms\n") rest refl
