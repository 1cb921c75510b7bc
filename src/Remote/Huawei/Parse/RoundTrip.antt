-- ===== src/Remote/Huawei/Parse/RoundTrip.antt =====
-- `ParseOutput` on the whole output of the router for a run.
use smokeping_prober.Prelude.{
  ℕ, ◌*◌, ◌≤◌, ◌<◌, ◌^◌, Bool, false, List, [], ◌∷◌, ◌++◌, ◌≡◌, refl, sym, ◌∙◌, ap, arith,
  append-nil, Text, codes, All, All-map, any, map, length, show_ℕ, ok, atoi-show_ℕ, max_int,
  wrap64-pos,
}
use smokeping_prober.Prelude.Matching.{spaces1, find, find_all}
use smokeping_prober.Prelude.Matching.Search.{find_all-Moves, any-false}
use smokeping_prober.Remote.Huawei.Parse.{
  count_re, reply_re, timeout_re, to_reply, sent_in, received_in, replies_in, timeouts_in,
  parse_output,
}
use smokeping_prober.Remote.Huawei.Parse.Accepts.{parse_output_iff}
use smokeping_prober.Remote.Huawei.Parse.Passing.{
  reply_head, timeout_head, digits_silent, no_count, past_reply, past_timeout, past_count,
  past_word, past_number,
}
use smokeping_prober.Remote.Huawei.Parse.Lines.{IsAddressByte, Answer, answered, unanswered}
use smokeping_prober.Remote.Huawei.Parse.Printed.{
  header_sep, print_counts, print_answers, print_run, numbers_of, replies_of, lost_of,
  header_sep-blocks, separators_silent, print_answers-replies, print_answers-timeouts,
  print_answers-count, counts-replies, counts-timeouts, counts-sent, counts-received,
}

-- The header of an output in front of the rest.
abbrev print_header : Bool → Text → ℕ → Text → Text
print_header v6 address size rest =
    codes "  PING "
    ++ (address
        ++ (header_sep v6
            ++ (show_ℕ size ++ (codes "  data bytes, press CTRL_C to break\n" ++ rest))))

module _ (v6 : Bool) (address : Text) (size : ℕ) (bytes : All IsAddressByte address)
    (rest : Text) where
  header-count :
      (word : Text)
      → find (count_re word) (print_header v6 address size rest) ≡ find (count_re word) rest
  unfolding no_count spaces1
  header-count word =
      past_count word (codes "  PING ") _ refl
      ∙ past_word word address _ (All-map address (λ c h. ground arith) bytes)
          (header_sep-blocks word v6 _).0 (header_sep-blocks word v6 _).1
      ∙ past_count word (header_sep v6) _ (separators_silent v6).4
      ∙ past_number word size _ refl refl
      ∙ past_count word (codes "  data bytes, press CTRL_C to break\n") rest refl

  header-replies : find_all reply_re (print_header v6 address size rest) ≡ find_all reply_re rest
  header-replies =
      past_reply (codes "  PING ") _ refl
      ∙ past_reply address _ (any-false reply_head address (λ c h. ground arith) bytes)
      ∙ past_reply (header_sep v6) _ (separators_silent v6).0
      ∙ past_reply (show_ℕ size) _ (digits_silent reply_head size λ c h. ground arith)
      ∙ past_reply (codes "  data bytes, press CTRL_C to break\n") rest refl

  header-timeouts :
      find_all timeout_re (print_header v6 address size rest) ≡ find_all timeout_re rest
  unfolding timeout_re
  header-timeouts =
      past_timeout (codes "  PING ") _ refl
      ∙ past_timeout address _ (any-false timeout_head address (λ c h. ground arith) bytes)
      ∙ past_timeout (header_sep v6) _ (separators_silent v6).2
      ∙ past_timeout (show_ℕ size) _ (digits_silent timeout_head size λ c h. ground arith)
      ∙ past_timeout (codes "  data bytes, press CT") _ refl
      ∙ find_all-Moves timeout_re b'R' _ refl
      ∙ past_timeout (codes "L_C to break\n") rest refl

-- The numbers of an answer have the size of the machine's.
abbrev pub Fits : Answer → Type 0
Fits (answered seq ttl ms) = (seq ≤ max_int) × (ttl ≤ max_int) × (ms * 1000000 < 2 ^ 63)
Fits unanswered = Unit

to_reply-numbers :
    (answers : List Answer)
    → All Fits answers
    → map to_reply (numbers_of answers) ≡ replies_of answers
unfolding to_reply
to_reply-numbers [] fits = refl
to_reply-numbers (answered seq ttl ms ∷ answers) (fits, others) =
    let rest = to_reply-numbers answers others in
    let s = atoi-show_ℕ seq fits.0 in
    let t = atoi-show_ℕ ttl fits.1 in
    let m = atoi-show_ℕ ms (omega (arith, fits.2)) in
    let w = wrap64-pos (ms * 1000000) fits.2 in rw (s, t, m, w, rest) refl
to_reply-numbers (unanswered ∷ answers) (fits, others) = to_reply-numbers answers others

module _ (v6 : Bool) (address : Text) (size : ℕ) (bytes : All IsAddressByte address) where
  -- `ParseOutput` gives back the run that the router printed in its format: the packets sent, the
  -- number, TTL and milliseconds of each reply in order, and the packets without a reply; for the
  -- formats of IPv4 and of IPv6, if the address is one in digits, the numbers fit the machine's, the
  -- replies are as many as the count that is printed, and the footer holds no `R` and no `S`.
  pub parse_output-print_run :
      (answers : List Answer) (sent : ℕ) (footer : Text)
      → All Fits answers
      → sent ≤ max_int
      → length (replies_of answers) ≤ max_int
      → any reply_head footer ≡ false
      → any timeout_head footer ≡ false
      → parse_output (print_run v6 address size answers sent (length (replies_of answers)) footer)
        ≡ ok (record { sent = sent; replies = replies_of answers; timeouts = lost_of answers })
  unfolding sent_in received_in replies_in timeouts_in
  parse_output-print_run answers sent footer fits small few no_s no_r =
      let received = length (replies_of answers) in
      let counts = print_counts v6 address sent received footer in
      let body = print_answers v6 address size answers counts in
      let sent_found =
        header-count v6 address size bytes body (codes "transmitted")
        ∙ print_answers-count v6 address size bytes (codes "transmitted") answers counts
        ∙ counts-sent v6 address size bytes sent received footer in
      let received_found =
        header-count v6 address size bytes body (codes "received")
        ∙ print_answers-count v6 address size bytes (codes "received") answers counts
        ∙ counts-received v6 address size bytes sent received footer in
      let replies_found =
        header-replies v6 address size bytes body
        ∙ print_answers-replies v6 address size bytes answers counts
        ∙ ap (λ found. numbers_of answers ++ found)
            (counts-replies v6 address size bytes sent received footer no_s)
        ∙ append-nil (numbers_of answers) in
      let timeouts_found =
        ap length (header-timeouts v6 address size bytes body)
        ∙ print_answers-timeouts v6 address size bytes answers counts
        ∙ omega
            (arith, ap length (counts-timeouts v6 address size bytes sent received footer no_r)) in
      (parse_output_iff (print_run v6 address size answers sent received footer) _).1 (
        rw (sent_found, atoi-show_ℕ sent small) refl,
        rw (received_found, atoi-show_ℕ received few) refl,
        sym (ap (map to_reply) replies_found ∙ to_reply-numbers answers fits),
        sym timeouts_found,
      )
