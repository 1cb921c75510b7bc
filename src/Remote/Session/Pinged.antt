-- ===== src/Remote/Session/Pinged.antt =====
-- `Run` and `ParseOutput` together, on what the router sends for a ping command.
use mathlib.Core.Path.{subst}
use smokeping_prober.Prelude.{from_index, sym, ℕ, some}
use smokeping_prober.Remote.Session.{is_pad, text}
use smokeping_prober.Remote.Session.Plain.{IsPlain, IsAnswer-plain}
use smokeping_prober.Prelude.{
  ℕ, ◌≤◌, Bool, true, false, List, [], ◌∷◌, ◌++◌, map, ◌≡◌, ◌≢◌, refl, ap, ◌∙◌, All, Text, codes,
  any, contains_text, length, ok, trim_space, show_ℕ, max_int,
}
use smokeping_prober.Prelude.Strings.Trims.{join-split, split-first, Trims, Trims-front}
use smokeping_prober.Remote.Session.{
  Signal, chunk, Session, drain, last_token, drop_first, clean_output, run,
}
use smokeping_prober.Remote.Session.Wait.{joined}
use smokeping_prober.Remote.Session.Answer.{IsAnswer, answered_session, run-answer}
use smokeping_prober.Remote.Huawei.Parse.{
  PingResult, parse_output, sent_in, received_in, replies_in, timeouts_in,
}
use smokeping_prober.Remote.Huawei.Parse.Accepts.{parse_output_iff}
use smokeping_prober.Remote.Huawei.Parse.Passing.{
  reply_head, timeout_head, past_reply, past_timeout, past_count,
}
use smokeping_prober.Remote.Huawei.Parse.Lines.{
  IsAddressByte, Answer, answered, unanswered, data_sep, ttl_name, print_answer,
}
use smokeping_prober.Remote.Huawei.Parse.Printed.{
  header_sep, counts_sep, print_counts, print_answers, print_run, replies_of, lost_of,
}
use smokeping_prober.Remote.Huawei.Parse.RoundTrip.{Fits, parse_output-print_run}

-- The rest of the echo of the command is dropped.
clean_output-echo :
    (line anchor body : Text)
    → All (λ c. c ≢ 10) line
    → contains_text line anchor ≡ true
    → clean_output (line ++ 10 ∷ body) anchor ≡ trim_space body
unfolding clean_output drop_first
clean_output-echo line anchor body one_line holds =
    rw (split-first 10 line body one_line, holds, join-split 10 body) refl

module _ (v6 : Bool) (address : Text) (size : ℕ) where
  print_answer-Trims :
      (a : Answer) {rest left : Text}
      → Trims rest left
      → Trims (print_answer v6 address size a rest) (print_answer v6 address size a left)
  print_answer-Trims (answered seq ttl ms) h = Trims-front (codes "    Reply from ") (
      Trims-front address (
        Trims-front (data_sep v6) (
          Trims-front (show_ℕ size) (
            Trims-front (codes " Sequence=") (
              Trims-front (show_ℕ seq) (
                Trims-front (ttl_name v6) (
                  Trims-front (show_ℕ ttl) (
                    Trims-front (codes " time=")
                      (Trims-front (show_ℕ ms) (Trims-front (codes " ms\n") h))))))))))
  print_answer-Trims unanswered h = Trims-front (codes "    Request time out\n") h

  print_answers-Trims :
      (answers : List Answer) {rest left : Text}
      → Trims rest left
      → Trims
          (print_answers v6 address size answers rest)
          (print_answers v6 address size answers left)
  print_answers-Trims [] h = h
  print_answers-Trims (a ∷ answers) h = print_answer-Trims a (print_answers-Trims answers h)

  print_counts-Trims :
      (sent received : ℕ) {rest left : Text}
      → Trims rest left
      → Trims
          (print_counts v6 address sent received rest)
          (print_counts v6 address sent received left)
  print_counts-Trims sent received h = Trims-front (codes "\n  --- ") (
      Trims-front address (
        Trims-front (counts_sep v6) (
          Trims-front (show_ℕ sent) (
            Trims-front (codes " packet(s) transmitted\n    ")
              (Trims-front (show_ℕ received) (Trims-front (codes " packet(s) received\n") h))))))

  -- The output without the white space at its ends.
  trim_space-print_run :
      (answers : List Answer) (sent received : ℕ) (footer left : Text)
      → Trims footer left
      → codes "  " ++ trim_space (print_run v6 address size answers sent received footer)
        ≡ print_run v6 address size answers sent received left
  unfolding trim_space
  trim_space-print_run answers sent received footer left h =
      let all = Trims-front (codes "PING ") (
        Trims-front address (
          Trims-front (header_sep v6) (
            Trims-front (show_ℕ size) (
              Trims-front (codes "  data bytes, press CTRL_C to break\n")
                (print_answers-Trims answers (print_counts-Trims sent received h)))))) in
      ap (λ s. 32 ∷ 32 ∷ s) all.left

-- Two spaces in front make no difference to `ParseOutput` when it gives a result.
parse_output-indent :
    (s : Text) (res : PingResult)
    → parse_output (codes "  " ++ s) ≡ ok res
    → parse_output s ≡ ok res
unfolding sent_in received_in replies_in timeouts_in
parse_output-indent s res e =
    let (sent, received, replies, timeouts) = (parse_output_iff (codes "  " ++ s) res).0 e in
    (parse_output_iff s res).1 (
      rw (past_count (codes "transmitted") (codes "  ") s refl) at sent,
      rw (past_count (codes "received") (codes "  ") s refl) at received,
      rw (past_reply (codes "  ") s refl) at replies,
      rw (past_timeout (codes "  ") s refl) at timeouts,
    )

module _ (v6 : Bool) (address : Text) (size : ℕ) (bytes : All IsAddressByte address) where
  -- When the router answers a command with its echo and the output of a run in its format, `Run`
  -- returns an output from which `ParseOutput` reads that run, however the bytes are cut into
  -- non-empty chunks: the packets sent, number, TTL and milliseconds of each reply in order, and
  -- the packets without one. The session, its connection and its prompt are as before, and the
  -- signals behind the answer are unread. The channel is empty; from the first place of the last
  -- word of the command on, the text that comes is the rest of a line that holds this word, the
  -- output on the next lines, and the prompt; the last byte of the prompt is no space and comes
  -- nowhere before; no byte starts an ANSI sequence; the last word is not empty; the address is one
  -- in digits, the numbers fit the machine's, the count of replies is right, and the footer without
  -- the white space at its end is not empty and holds no `R` and no `S`.
  pub run-print_run :
      (cmd w line : Text) (cs : List Text) (more second : List Signal) (s : Session) (end : ℕ)
      (name : Text) (answers : List Answer) (sent : ℕ) (footer left : Text)
      → (drain s).chunks ≡ []
      → s.prompt ≡ name ++ end ∷ []
      → is_pad end ≡ false
      → All (IsPlain end) w
      → All (λ c. c ≢ []) cs
      → joined cs ≡ w ++ end ∷ []
      → last_token cmd ≢ []
      → All (λ c. c ≢ 10) line
      → contains_text line (last_token cmd) ≡ true
      → from_index (last_token cmd) (text (w ++ end ∷ []))
        ≡ some (
            (line
              ++ 10 ∷ print_run v6 address size answers sent (length (replies_of answers)) footer)
            ++ (name ++ end ∷ []))
      → Trims footer left
      → All Fits answers
      → sent ≤ max_int
      → length (replies_of answers) ≤ max_int
      → any reply_head left ≡ false
      → any timeout_head left ≡ false
      → (out : Text) × (run cmd true (map chunk cs ++ more) second s
          ≡ (ok out, answered_session cmd s more))
        × (parse_output out
            ≡ ok (record { sent = sent; replies = replies_of answers; timeouts = lost_of answers }))
  run-print_run cmd w line cs more second s end name answers sent footer left quiet prompt solid
        plain filled whole some_word one_line holds shown trims fits small few no_s no_r =
      let replies = length (replies_of answers) in
      let printed = print_run v6 address size answers sent replies footer in
      let trimmed = trim_space-print_run v6 address size answers sent replies footer left trims in
      let answer =
        subst (λ p. IsAnswer p (last_token cmd) (w ++ end ∷ []) (line ++ 10 ∷ printed)) (sym prompt)
          (IsAnswer-plain end name (last_token cmd) w (line ++ 10 ∷ printed) solid some_word plain
            shown) in
      (
        trim_space printed,
        run-answer cmd (w ++ end ∷ []) _ cs more second s quiet answer filled whole
            ∙ ap (λ out. (ok out, answered_session cmd s more))
                (clean_output-echo line (last_token cmd) printed one_line holds),
        parse_output-indent (trim_space printed) _ (
            ap parse_output trimmed
            ∙ parse_output-print_run v6 address size bytes answers sent left fits small few no_s
                no_r),
      )
