-- ===== src/Tests/ParseTests.antt =====
-- The router's output for a short run, printed and parsed back.
use smokeping_prober.Prelude.{
  true, false, List, [], ◌∷◌, ◌≡◌, refl, arith, All, Text, codes, ok, show_ℕ, length,
}
use smokeping_prober.Remote.Huawei.Parse.{parse_output}
use smokeping_prober.Remote.Huawei.Parse.Lines.{IsAddressByte, Answer, answered, unanswered}
use smokeping_prober.Remote.Huawei.Parse.Printed.{print_run, replies_of, lost_of}
use smokeping_prober.Remote.Huawei.Parse.RoundTrip.{Fits, parse_output-print_run}

abbrev answers : List Answer
answers = answered 1 119 55 ∷ unanswered ∷ answered 3 119 57 ∷ []

abbrev address : Text
address = codes "8.8.8.8"

abbrev footer : Text
footer = codes "    33.33% packet loss\n    round-trip min/avg/max = 55/56/57 ms"

-- The output of the test `ipv4Loss` of remote/huawei_test.go.
print_run_ipv4_loss :
    print_run false address 56 answers 3 2 footer
    ≡ codes
        "  PING 8.8.8.8: 56  data bytes, press CTRL_C to break\n    Reply from 8.8.8.8: bytes=56 Sequence=1 ttl=119 time=55 ms\n    Request time out\n    Reply from 8.8.8.8: bytes=56 Sequence=3 ttl=119 time=57 ms\n\n  --- 8.8.8.8 ping statistics ---\n    3 packet(s) transmitted\n    2 packet(s) received\n    33.33% packet loss\n    round-trip min/avg/max = 55/56/57 ms"
unfolding show_ℕ
print_run_ipv4_loss = refl

-- That of `ipv6OK`, with its first reply only.
print_run_ipv6 :
    print_run true (codes "2001:4860:4860::8888") 56 (answered 1 116 18 ∷ []) 1 1 []
    ≡ codes
        "  PING 2001:4860:4860::8888 : 56  data bytes, press CTRL_C to break\n    Reply from 2001:4860:4860::8888\n    bytes=56 Sequence=1 hop limit=116 time=18 ms\n\n  --- 2001:4860:4860::8888 ping statistics---\n    1 packet(s) transmitted\n    1 packet(s) received\n"
unfolding show_ℕ
print_run_ipv6 = refl

address_bytes : All IsAddressByte address
address_bytes = ground arith

answers-Fits : All Fits answers
answers-Fits = ground arith

parse_output-print_run_example :
    parse_output (print_run false address 56 answers 3 (length (replies_of answers)) footer)
    ≡ ok (record { sent = 3; replies = replies_of answers; timeouts = lost_of answers })
parse_output-print_run_example =
    parse_output-print_run false address 56 address_bytes answers 3 footer answers-Fits
      (omega arith) (omega arith) refl refl
