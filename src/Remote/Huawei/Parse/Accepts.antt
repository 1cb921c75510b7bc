-- ===== src/Remote/Huawei/Parse/Accepts.antt =====
-- What `ParseOutput` accepts, and a run on output in the format of the router.
use smokeping_prober.Prelude.{
  ◌≡◌, ◌↔◌, refl, arith, some, [], ◌∷◌, Text, codes, length, ok, pos, atoi, wrap64,
}
use smokeping_prober.Prelude.Matching.{digits1, spaces, spaces1, find, find_all}
use smokeping_prober.Remote.Huawei.Parse.{
  PingResult, parse_output, sent_in, received_in, replies_in, timeouts_in,
}

abbrev one_lost : Text
one_lost =
    codes
      "ping -c 2\n  PING 8.8.8.8: 56  data bytes, press CTRL_C to break\n    Reply from 8.8.8.8: bytes=56 Sequence=1 ttl=117 time=21 ms\n    Request time out\n\n  --- 8.8.8.8 ping statistics ---\n    2 packet(s) transmitted\n    1 packet(s) received\n    50.00% packet loss\n"

one_lost_parsed :
    parse_output one_lost
    ≡ ok (record {
      sent = 2;
      replies = record { seq = 1; rtt = pos 21000000; ttl = 117 } ∷ [];
      timeouts = 1;
    })
unfolding parse_output find find_all digits1 spaces spaces1 atoi wrap64
one_lost_parsed = refl

-- `ParseOutput` gives a result exactly if the output has a line of sent packets and one of received
-- packets, and the received packets are as many as the replies in the output; the result is what
-- the output says, so a reply that the router counted is never missing from it.
pub parse_output_iff :
    (out : Text) (res : PingResult)
    → (parse_output out ≡ ok res) ↔ (
        (sent_in out ≡ some res.sent)
        × (received_in out ≡ some (length res.replies))
        × (res.replies ≡ replies_in out)
        × (res.timeouts ≡ timeouts_in out))
unfolding parse_output
parse_output_iff out res = (λ e. ground arith, λ e. ground arith)
