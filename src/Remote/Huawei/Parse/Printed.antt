-- ===== src/Remote/Huawei/Parse/Printed.antt =====
-- The output of the router for a ping run, and what `ParseOutput` reads from it. The format is that
-- of the outputs in remote/huawei_test.go.
use smokeping_prober.Prelude.{
  ℕ, suc, ◌+◌, ◌*◌, pos, Bool, true, false, some, List, [], ◌∷◌, ◌++◌, ◌≡◌, refl, ◌∙◌, ap, arith,
  Text, codes, All, All-map, any, length, show_ℕ,
}
use smokeping_prober.Prelude.Matching.{is_digit, spaces1, find, find_all}
use smokeping_prober.Prelude.Matching.Search.{find-match, any-false}
use smokeping_prober.Remote.Huawei.Parse.{Reply, count_re, reply_re, timeout_re}
use smokeping_prober.Remote.Huawei.Parse.Passing.{
  Ends, digits1-show_ℕ, reply_head, timeout_head, digits_silent, no_count, past_reply, past_timeout,
  no_reply, no_timeout, past_count, past_word, past_number,
}
use smokeping_prober.Remote.Huawei.Parse.Lines.{
  IsAddressByte, Answer, answered, unanswered, print_answer, print_answer-replies,
  print_answer-timeouts, print_answer-count,
}

abbrev pub header_sep : Bool → Text
header_sep v6 = elim v6 [ true ↦ codes " : " | false ↦ codes ": " ]

abbrev pub counts_sep : Bool → Text
counts_sep v6 = elim v6 [
  | true ↦ codes " ping statistics---\n    "
  | false ↦ codes " ping statistics ---\n    "
]

abbrev pub print_counts : Bool → Text → ℕ → ℕ → Text → Text
print_counts v6 address sent received footer =
    codes "\n  --- "
    ++ (address
        ++ (counts_sep v6
            ++ (show_ℕ sent
                ++ (codes " packet(s) transmitted\n    "
                    ++ (show_ℕ received ++ (codes " packet(s) received\n" ++ footer))))))

module _ (v6 : Bool) (address : Text) (size : ℕ) where
  abbrev pub print_answers : List Answer → Text → Text
  print_answers [] rest = rest
  print_answers (a ∷ answers) rest = print_answer v6 address size a (print_answers answers rest)

  -- The whole output, with its header, the counts, and a footer behind them.
  abbrev pub print_run : List Answer → ℕ → ℕ → Text → Text
  print_run answers sent received footer =
      codes "  PING "
      ++ (address
          ++ (header_sep v6
              ++ (show_ℕ size
                  ++ (codes "  data bytes, press CTRL_C to break\n"
                      ++ print_answers answers (print_counts v6 address sent received footer)))))

-- The three numbers of each reply, in order, and the packets without one.
abbrev pub numbers_of : List Answer → List (Text × Text × Text)
numbers_of [] = []
numbers_of (answered seq ttl ms ∷ answers) =
    (show_ℕ seq, show_ℕ ttl, show_ℕ ms) ∷ numbers_of answers
numbers_of (unanswered ∷ answers) = numbers_of answers

abbrev pub replies_of : List Answer → List Reply
replies_of [] = []
replies_of (answered seq ttl ms ∷ answers) =
    record { seq = seq; rtt = pos (ms * 1000000); ttl = ttl } ∷ replies_of answers
replies_of (unanswered ∷ answers) = replies_of answers

abbrev pub lost_of : List Answer → ℕ
lost_of [] = 0
lost_of (answered _ _ _ ∷ answers) = lost_of answers
lost_of (unanswered ∷ answers) = suc (lost_of answers)

count_re-sent :
    (n : ℕ) (rest : Text)
    → count_re (codes "transmitted") (show_ℕ n ++ (codes " packet(s) transmitted" ++ rest))
      ≡ some (show_ℕ n, rest)
unfolding count_re spaces1
count_re-sent n rest = rw (digits1-show_ℕ n _ refl) refl

count_re-received :
    (n : ℕ) (rest : Text)
    → count_re (codes "received") (show_ℕ n ++ (codes " packet(s) received" ++ rest))
      ≡ some (show_ℕ n, rest)
unfolding count_re spaces1
count_re-received n rest = rw (digits1-show_ℕ n _ refl) refl

-- No count starts at the end of an address in front of these.
pub header_sep-blocks :
    (word : Text) (v6 : Bool) (s : Text)
    → Ends (header_sep v6 ++ s) × (no_count word (header_sep v6 ++ s) ≡ true)
unfolding no_count spaces1
header_sep-blocks word true s = (refl, refl)
header_sep-blocks word false s = (refl, refl)

counts_sep-blocks :
    (word : Text) (v6 : Bool) (s : Text)
    → Ends (counts_sep v6 ++ s) × (no_count word (counts_sep v6 ++ s) ≡ true)
unfolding no_count spaces1
counts_sep-blocks word true s = (refl, refl)
counts_sep-blocks word false s = (refl, refl)

pub separators_silent :
    (v6 : Bool)
    → (any reply_head (header_sep v6) ≡ false)
      × (any reply_head (counts_sep v6) ≡ false)
      × (any timeout_head (header_sep v6) ≡ false)
      × (any timeout_head (counts_sep v6) ≡ false)
      × (any is_digit (header_sep v6) ≡ false)
      × (any is_digit (counts_sep v6) ≡ false)
separators_silent true = (refl, refl, refl, refl, refl, refl)
separators_silent false = (refl, refl, refl, refl, refl, refl)

module _ (v6 : Bool) (address : Text) (size : ℕ) (bytes : All IsAddressByte address) where
  pub print_answers-replies :
      (answers : List Answer) (rest : Text)
      → find_all reply_re (print_answers v6 address size answers rest)
        ≡ numbers_of answers ++ find_all reply_re rest
  print_answers-replies [] rest = refl
  print_answers-replies (answered seq ttl ms ∷ answers) rest =
      print_answer-replies v6 address size bytes (answered seq ttl ms) _
      ∙ ap (λ found. (show_ℕ seq, show_ℕ ttl, show_ℕ ms) ∷ found)
          (print_answers-replies answers rest)
  print_answers-replies (unanswered ∷ answers) rest =
      print_answer-replies v6 address size bytes unanswered _ ∙ print_answers-replies answers rest

  pub print_answers-timeouts :
      (answers : List Answer) (rest : Text)
      → length (find_all timeout_re (print_answers v6 address size answers rest))
        ≡ lost_of answers + length (find_all timeout_re rest)
  print_answers-timeouts [] rest = omega arith
  print_answers-timeouts (answered seq ttl ms ∷ answers) rest =
      ap length (print_answer-timeouts v6 address size bytes (answered seq ttl ms) _)
      ∙ print_answers-timeouts answers rest
  print_answers-timeouts (unanswered ∷ answers) rest =
      ap length (print_answer-timeouts v6 address size bytes unanswered _)
      ∙ omega (arith, print_answers-timeouts answers rest)

  pub print_answers-count :
      (word : Text) (answers : List Answer) (rest : Text)
      → find (count_re word) (print_answers v6 address size answers rest)
        ≡ find (count_re word) rest
  print_answers-count word [] rest = refl
  print_answers-count word (a ∷ answers) rest =
      print_answer-count v6 address size bytes word a _ ∙ print_answers-count word answers rest

  module _ (sent received : ℕ) (footer : Text) where
    pub counts-replies :
        any reply_head footer ≡ false
        → find_all reply_re (print_counts v6 address sent received footer) ≡ []
    counts-replies quiet =
        past_reply (codes "\n  --- ") _ refl
        ∙ past_reply address _ (any-false reply_head address (λ c h. ground arith) bytes)
        ∙ past_reply (counts_sep v6) _ (separators_silent v6).1
        ∙ past_reply (show_ℕ sent) _ (digits_silent reply_head sent λ c h. ground arith)
        ∙ past_reply (codes " packet(s) transmitted\n    ") _ refl
        ∙ past_reply (show_ℕ received) _ (digits_silent reply_head received λ c h. ground arith)
        ∙ past_reply (codes " packet(s) received\n") footer refl
        ∙ no_reply footer quiet

    pub counts-timeouts :
        any timeout_head footer ≡ false
        → find_all timeout_re (print_counts v6 address sent received footer) ≡ []
    counts-timeouts quiet =
        past_timeout (codes "\n  --- ") _ refl
        ∙ past_timeout address _ (any-false timeout_head address (λ c h. ground arith) bytes)
        ∙ past_timeout (counts_sep v6) _ (separators_silent v6).3
        ∙ past_timeout (show_ℕ sent) _ (digits_silent timeout_head sent λ c h. ground arith)
        ∙ past_timeout (codes " packet(s) transmitted\n    ") _ refl
        ∙ past_timeout (show_ℕ received) _ (digits_silent timeout_head received λ c h. ground arith)
        ∙ past_timeout (codes " packet(s) received\n") footer refl
        ∙ no_timeout footer quiet

    -- The counts as far as the number of sent packets.
    before_sent :
        (word : Text)
        → find (count_re word) (print_counts v6 address sent received footer)
          ≡ find (count_re word) (
              show_ℕ sent
              ++ (codes " packet(s) transmitted\n    "
                  ++ (show_ℕ received ++ (codes " packet(s) received\n" ++ footer))))
    before_sent word =
        past_count word (codes "\n  --- ") _ refl
        ∙ past_word word address _ (All-map address (λ c h. ground arith) bytes)
            (counts_sep-blocks word v6 _).0 (counts_sep-blocks word v6 _).1
        ∙ past_count word (counts_sep v6) _ (separators_silent v6).5

    pub counts-sent :
        find (count_re (codes "transmitted")) (print_counts v6 address sent received footer)
        ≡ some (show_ℕ sent)
    counts-sent =
        before_sent (codes "transmitted")
        ∙ find-match (count_re (codes "transmitted")) _ _ (show_ℕ sent) (count_re-sent sent _)

    pub counts-received :
        find (count_re (codes "received")) (print_counts v6 address sent received footer)
        ≡ some (show_ℕ received)
    unfolding no_count spaces1
    counts-received =
        before_sent (codes "received")
        ∙ past_number (codes "received") sent _ refl refl
        ∙ past_count (codes "received") (codes " packet(s) transmitted\n    ") _ refl
        ∙ find-match (count_re (codes "received")) _ _ (show_ℕ received)
            (count_re-received received _)
