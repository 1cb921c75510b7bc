-- ===== src/Tests/RemoteTests.antt =====
-- Runs and instances for remote/targets.go and remote/huawei.go.
use smokeping_prober.Prelude.{
  pos, true, some, List, [], ◌∷◌, All, ◌≡◌, ◌↔◌, arith, refl, Text, codes, text_eq, text_eq_iff, ok,
  length, fields, show_ℕ, show_ℤ, split, trim_space, from_index, strip_suffix,
}
use smokeping_prober.Remote.Huawei.Parse.{
  PingResult, parse_output, sent_in, received_in, replies_in, timeouts_in,
}
use smokeping_prober.Remote.Huawei.Parse.Accepts.{parse_output_iff}
use smokeping_prober.Remote.Session.{
  Session, Signal, chunk, run, wait_prompt, wait_from, prompted, text, last_token, drain, write,
  clean_output,
}
use smokeping_prober.Remote.Session.Prompted.{WaitEnds, wait_prompt-EndsIn}
use smokeping_prober.Remote.Session.Answer.{IsAnswer}
use smokeping_prober.Prelude.{DistinctBy, ◌↔◌}
use smokeping_prober.Collector.Distinct.{series, build_targets-Distinct}
use smokeping_prober.Tests.CollectorTests.{sort, same_order}
use smokeping_prober.Remote.Targets.Commands.{WritesWords, IsObeyed, build_targets-IsObeyed}
use smokeping_prober.Config.{router_named}
use smokeping_prober.Remote.Session.Closing.{Ended, run-Ended}
use smokeping_prober.Net.{Ip, is_v4}
use smokeping_prober.Remote.Huawei.{build_command}
use smokeping_prober.Remote.Huawei.Command.{tokens, fields-build_command}
use smokeping_prober.Remote.Targets.{Target, resolve, build_targets}
use smokeping_prober.Remote.Targets.Described.{HostsServed, build_targets-HostsServed}
use smokeping_prober.Remote.Targets.Resolving.{FromLiteral, FromLookup, resolve-Resolved}
use smokeping_prober.Prelude.{some, none, ◌⊎◌}
use smokeping_prober.Remote.Targets.Valid.{LooksUpFamily, build_targets_total}
use smokeping_prober.Tests.Fixtures.{address4, small_net, ne8k, remote_group, sample, sample_job}
use smokeping_prober.Tests.ConfigTests.{remote_group-valid, sample_accepted}

small_net-LooksUpFamily : LooksUpFamily small_net
unfolding is_v4
small_net-LooksUpFamily network host ips e = ground (arith, text_eq_iff network (codes "ip6"))

resolve-Resolved_example :
    ((ip : Ip) × (small_net.parse_ip (codes "example.org") ≡ some ip)
      × FromLiteral small_net
          (codes "example.org")
          (codes "ip6")
          ip
          (resolve small_net (codes "example.org") (codes "ip6")))
    ⊎ ((small_net.parse_ip (codes "example.org") ≡ none)
        × FromLookup small_net
            (codes "example.org")
            (codes "ip6")
            (resolve small_net (codes "example.org") (codes "ip6")))
resolve-Resolved_example = resolve-Resolved small_net (codes "example.org") (codes "ip6")

build_targets_total_example :
    (ts : List Target) × (build_targets small_net remote_group ne8k (resolve small_net) ≡ ok ts)
unfolding resolve text_eq is_v4
build_targets_total_example =
    build_targets_total small_net remote_group ne8k small_net-LooksUpFamily remote_group-valid
      ((address4, refl, λ e. refl), tt)

build_targets-HostsServed_example :
    HostsServed small_net remote_group ne8k
      (resolve small_net)
      remote_group.hosts
      build_targets_total_example.0
build_targets-HostsServed_example =
    build_targets-HostsServed small_net remote_group ne8k (resolve small_net)
      build_targets_total_example.0 build_targets_total_example.1

command_text :
    build_command sample_job
    ≡ codes "ping -vpn-instance upstream-1 -c 10 -m 50 -t 500 -s 56 -tos 0 -a 192.0.2.1 8.8.8.8"
unfolding build_command show_ℕ show_ℤ
command_text = refl

fields-build_command_example : fields (build_command sample_job) ≡ tokens sample_job
fields-build_command_example = fields-build_command sample_job (ground arith)

abbrev short_output : Text
short_output =
    codes
      "Reply from 8.8.8.8: bytes=56 Sequence=1 ttl=117 time=21 ms\nRequest time out\n2 packet(s) transmitted\n1 packet(s) received\n"

abbrev short_result : PingResult
short_result = record {
  sent = 2;
  replies = record { seq = 1; rtt = pos 21000000; ttl = 117 } ∷ [];
  timeouts = 1;
}

parse_output_iff_example : (parse_output short_output ≡ ok short_result) ↔ (
    (sent_in short_output ≡ some short_result.sent)
    × (received_in short_output ≡ some (length short_result.replies))
    × (short_result.replies ≡ replies_in short_output)
    × (short_result.timeouts ≡ timeouts_in short_output))
parse_output_iff_example = parse_output_iff short_output short_result

-- A shell after login, and what it sends for a command: the echo, the output and the prompt.
abbrev shell : Session
shell = record { chunks = []; buf = []; prompt = codes "<ne8k>"; is_open = true; written = [] }

abbrev answer : List Signal
answer = chunk (codes "ping 8.8.8.8\r\nok") ∷ chunk (codes " done\r\n<ne8k>") ∷ []

run_answered : (run (codes "ping 8.8.8.8") true answer [] shell).0 ≡ ok (codes "ok done")
unfolding run wait_prompt wait_from prompted text last_token fields drain write clean_output split
    trim_space from_index strip_suffix text_eq
run_answered = refl

run-Ended_example : Ended (run (codes "ping 8.8.8.8") true answer [] shell)
run-Ended_example = run-Ended (codes "ping 8.8.8.8") true answer [] shell refl

wait_prompt-EndsIn_example :
    WaitEnds (codes "8.8.8.8") shell answer (wait_prompt (codes "8.8.8.8") answer shell)
wait_prompt-EndsIn_example = wait_prompt-EndsIn (codes "8.8.8.8") answer shell

abbrev banner : List Signal
banner = chunk (codes "Welcome\r\n<ne") ∷ chunk (codes "8k>") ∷ []

small_net-WritesWords : WritesWords small_net
unfolding is_v4
small_net-WritesWords = record {
  printed = λ ip. ground arith;
  literal = λ t ip e.
      ground (arith, text_eq_iff t (codes "192.0.2.1"), text_eq_iff t (codes "2001:db8::1"));
}

build_targets-IsObeyed_example : All IsObeyed build_targets_total_example.0
unfolding router_named text_eq
build_targets-IsObeyed_example =
    build_targets-IsObeyed small_net small_net-WritesWords sample remote_group ne8k
      (resolve small_net) build_targets_total_example.0 sample_accepted refl
      build_targets_total_example.1

-- The answer to a short command, which ends in the prompt, cut in two chunks.
abbrev short_answer : Text
short_answer = codes "x\r\n7\r\n<ne8k>"

short_answer-IsAnswer : IsAnswer (codes "<ne8k>") (codes "x") short_answer (codes "x\n7\n")
unfolding text prompted from_index strip_suffix text_eq
short_answer-IsAnswer = record {
  complete = refl;
  not_before = (
    refl,
    (refl, (refl, (refl, (refl, (refl, (refl, (refl, (refl, (refl, (refl, (refl, tt))))))))))),
  );
}

build_targets-Distinct_example :
    DistinctBy (series sort sample same_order) build_targets_total_example.0
    ↔ DistinctBy (λ (h : Text). h) remote_group.hosts
unfolding router_named text_eq
build_targets-Distinct_example =
    build_targets-Distinct sort sample same_order small_net remote_group ne8k (resolve small_net)
      build_targets_total_example.0 sample_accepted refl build_targets_total_example.1
