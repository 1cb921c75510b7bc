-- ===== src/Tests/PingedTests.antt =====
-- A job of one packet on a session, from the bytes of the router to the series of its target.
use smokeping_prober.Prelude.{
  ℕ, pos, All, true, false, some, List, [], ◌∷◌, ◌++◌, ◌≡◌, ◌↔◌, refl, arith, all_iff, Text, codes,
  show_ℕ, show_ℤ, not, ◌&&◌, ◌==◌,
}
use smokeping_prober.Prelude.Strings.Trims.{Trims}
use smokeping_prober.Remote.Huawei.{build_command}
use smokeping_prober.Remote.Huawei.Command.{IsWritable}
use smokeping_prober.Remote.Huawei.Parse.Lines.{Answer, answered}
use smokeping_prober.Remote.Session.{Session, text, drain}
use smokeping_prober.Remote.Session.Plain.{IsPlain}
use smokeping_prober.Remote.Session.{
  run, chunk, wait_prompt, wait_from, prompted, write, last_token, last_of, timed_out,
}
use smokeping_prober.Remote.Session.Reading.{read_loop, reads_of}
use smokeping_prober.Remote.Session.Answer.{answered_session}
use smokeping_prober.Prelude.{err, strip_suffix, text_eq, none, fields, from_index}
use smokeping_prober.Remote.Scheduler.Serve.Series.{
  Talk, over, answers, times_out, settle, serve_jobs-Talk,
}
use smokeping_prober.Remote.Session.Runs.{Exchange, session_runner}
use smokeping_prober.Remote.Targets.{Target}
use smokeping_prober.Remote.Targets.Commands.{IsWritable-IsObeyed}
use smokeping_prober.Remote.Scheduler.{start}
use smokeping_prober.Remote.Scheduler.Serve.{
  HoldsOpen, served, serve_job, serve_jobs, serve_job-HoldsOpen,
}
use smokeping_prober.Remote.Scheduler.Serve.Answered.{
  IsReply, IsPrintable, result_of, wire_before, wire_after, serve_job-answered,
}
use smokeping_prober.Remote.Session.Runs.{session_runner-IsLawful}
use smokeping_prober.Collector.{Vectors, remote_label_values}
use smokeping_prober.Collector.Recorded.{record_all, serve_jobs-observations}
use smokeping_prober.Tests.Fixtures.{sample_job}

abbrev one_packet : Target
one_packet = record {
  host = codes "8.8.8.8";
  link = codes "isp-a";
  interval = pos 1000000000;
  labels = [];
  job = record sample_job { count = pos 1 };
  sent = 0;
  pending = true;
}

abbrev shell : Session
shell = record { chunks = []; buf = []; prompt = codes "<n>"; is_open = true; written = [] }

abbrev one_reply : List Answer
one_reply = answered 1 117 21 ∷ []

abbrev footer : Text
footer = codes "    0.00% packet loss\n"

abbrev first_chunk : Text
first_chunk =
    codes
      "ping -vpn-instance upstream-1 -c 1 -m 50 -t 500 -s 56 -tos 0 -a 192.0.2.1 8.8.8.8\r\n  PING 8.8.8.8: 56  data bytes, press CTRL_C to break\n    Reply from 8.8.8.8: bytes=56 Sequence=1 ttl=117 time=21 ms\n"

abbrev second_chunk : Text
second_chunk =
    codes
      "\n  --- 8.8.8.8 ping statistics ---\n    1 packet(s) transmitted\n    1 packet(s) received\n    0.00% packet loss\n<n"

abbrev pieces : List Text
pieces = first_chunk ∷ [] ∷ second_chunk ∷ codes ">" ∷ []

avoids_iff : (c : ℕ) → (not (c == b'>') && not (c == 27) ≡ true) ↔ IsPlain b'>' c
avoids_iff c = ground arith

chunks_avoid : All (IsPlain b'>') (first_chunk ++ second_chunk)
chunks_avoid =
    (all_iff (λ c. not (c == b'>') && not (c == 27)) (first_chunk ++ second_chunk) avoids_iff).0
      refl

footer-Trims : Trims footer (codes "    0.00% packet loss")
footer-Trims = record { left = refl; some_left = ground arith }

one_packet-IsWritable : IsWritable one_packet.job
one_packet-IsWritable = record {
  target_token = ground arith;
  source_token = ground arith;
  vpn_token = ground arith;
}

reply :
    IsReply
      (build_command one_packet.job)
      (codes "<n")
      b'>'
      false
      (codes "8.8.8.8")
      56
      one_reply
      1
      footer
      (first_chunk ++ second_chunk)
unfolding build_command text show_ℕ show_ℤ
reply = record { shown = refl; plain = chunks_avoid; solid = refl; address_bytes = ground arith }

printable : IsPrintable one_reply 1 footer
printable = record {
  fits = ((omega arith, omega arith, omega arith), tt);
  sent_fits = omega arith;
  received_fits = omega arith;
  left = codes "    0.00% packet loss";
  trims = footer-Trims;
  no_reply = refl;
  no_timeout = refl;
}

serve_job-answered_example :
    serve_job session_runner one_packet.job 0 (wire_before shell pieces [] [] []) start ≡ (
      served start 0 (result_of one_reply 1),
      some (wire_after (build_command one_packet.job) shell [] []),
      wire_after (build_command one_packet.job) shell [] [],
    )
serve_job-answered_example =
    serve_job-answered one_packet false (codes "8.8.8.8") 56 (codes "<n") b'>' one_reply 1 footer
      (first_chunk ++ second_chunk) shell pieces [] [] 0 start []
      (IsWritable-IsObeyed one_packet one_packet-IsWritable) reply printable (unfold drain in refl)
      refl refl

-- A session on which nothing comes back.
serve_job-HoldsOpen_example :
    HoldsOpen session_runner
      (serve_job session_runner one_packet.job 0 (record { session = shell; exchanges = [] }) start)
serve_job-HoldsOpen_example =
    serve_job-HoldsOpen session_runner session_runner-IsLawful one_packet.job 0
      (record { session = shell; exchanges = [] }) start refl

-- The first job is late: its output comes after the Ctrl-C, and some of it after the prompt.
abbrev too_late : Exchange
too_late = record {
  write_ok = true;
  first = [];
  second = chunk (first_chunk ++ codes "<n>") ∷ chunk second_chunk ∷ [];
}

abbrev after_late : Session
after_late = (run (build_command one_packet.job) true too_late.first too_late.second shell).1

missing :
    (run (build_command one_packet.job) true too_late.first too_late.second shell).0 ≡ err timed_out
unfolding run wait_prompt wait_from prompted text from_index drain write last_token last_of fields
    strip_suffix text_eq build_command show_ℕ show_ℤ
missing = refl

late_then_answered :
    Talk
      (codes "<n")
      b'>'
      shell
      ((0, one_packet) ∷ (1, one_packet) ∷ [])
      (too_late
        ∷ record { write_ok = true; first = read_loop (reads_of pieces) ++ []; second = [] }
        ∷ [])
      ((0, none) ∷ (1, some (result_of one_reply 1)) ∷ [])
      (answered_session (build_command one_packet.job) after_late [])
late_then_answered = times_out 0 one_packet too_late tt tt missing (
    answers 1 one_packet false (codes "8.8.8.8") 56 one_reply 1 footer (first_chunk ++ second_chunk)
      pieces [] [] (IsWritable-IsObeyed one_packet one_packet-IsWritable) reply printable refl tt
      over)

serve_jobs-Talk_example :
    serve_jobs session_runner
      ((0, one_packet.job) ∷ (1, one_packet.job) ∷ [])
      (record {
        session = shell;
        exchanges = too_late ∷ (wire_before shell pieces [] [] []).exchanges;
      })
      start
    ≡ (
      settle start ((0, none) ∷ (1, some (result_of one_reply 1)) ∷ []),
      some (record {
        session = answered_session (build_command one_packet.job) after_late [];
        exchanges = [];
      }),
    )
serve_jobs-Talk_example = serve_jobs-Talk (codes "<n") b'>' start late_then_answered tt refl

abbrev before : Vectors
before = record { observed = []; ttls = [] }

-- Only the second job is answered, after 21 ms.
serve_jobs-observations_example :
    (record_all
      (codes "host" ∷ [])
      (λ i. one_packet)
      (serve_jobs session_runner
        ((0, one_packet.job) ∷ (1, one_packet.job) ∷ [])
        (record {
          session = shell;
          exchanges = too_late ∷ (wire_before shell pieces [] [] []).exchanges;
        })
        start).0.recorded
      before).observed
    ≡ (record_all (codes "host" ∷ []) (λ i. one_packet) [] before).observed
      ++ (remote_label_values (codes "host" ∷ []) one_packet, pos 21000000) ∷ []
serve_jobs-observations_example =
    serve_jobs-observations (codes "host" ∷ []) (λ i. one_packet) (codes "<n") b'>' start before
      late_then_answered tt refl
