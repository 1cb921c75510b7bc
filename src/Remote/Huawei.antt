-- ===== src/Remote/Huawei.antt =====
-- The job of remote/huawei.go, the command line that runs it on the router, and its deadline.
pub mod Command
pub mod Deadline
pub mod Parse
use smokeping_prober.Prelude.{
  ℕ, zero, suc, ◌/◌, ℤ, pos, negsuc, Bool, [], ◌++◌, Text, codes, is_empty, if◌then◌else◌, show_ℕ,
  show_ℤ, div_ℤ, ◌+ℤ◌, ◌*ℤ◌, wrap64,
}
use smokeping_prober.Config.{Duration}

pub record Job : Type 0 where
  pub target : Text
  pub ipv6 : Bool
  pub source : Text
  pub count : ℤ
  pub packet_interval : Duration
  pub timeout : Duration
  pub size : ℤ
  pub tos : ℕ
  pub vpn_instance : Text

-- `Duration.Milliseconds`: division by a million, towards zero.
pub milliseconds : Duration → ℤ
milliseconds d = div_ℤ d 1000000

-- The three parts of the command that depend on the family and on the VPN instance.
family : Job → Text
family j = if j.ipv6 then codes "ping ipv6" else codes "ping"

tos_flag : Job → Text
tos_flag j = if j.ipv6 then codes "-tc" else codes "-tos"

vpn4 : Job → Text
vpn4 j =
    if is_empty j.vpn_instance
    then []
    else if j.ipv6
    then []
    else codes "-vpn-instance " ++ j.vpn_instance ++ codes " "

vpn6 : Job → Text
vpn6 j =
    if is_empty j.vpn_instance
    then []
    else if j.ipv6
    then codes "vpn-instance " ++ j.vpn_instance ++ codes " "
    else []

-- `BuildCommand`: "%s %s-c %d -m %d -t %d -s %d %s %d -a %s %s%s"
unfoldable pub build_command : Job → Text
unfolding family tos_flag vpn4 vpn6 milliseconds
build_command j =
    family j
    ++ (codes " "
        ++ (vpn4 j
            ++ (codes "-c "
                ++ (show_ℤ j.count
                    ++ (codes " -m "
                        ++ (show_ℤ (milliseconds j.packet_interval)
                            ++ (codes " -t "
                                ++ (show_ℤ (milliseconds j.timeout)
                                    ++ (codes " -s "
                                        ++ (show_ℤ j.size
                                            ++ (codes " "
                                                ++ (tos_flag j
                                                    ++ (codes " "
                                                        ++ (show_ℕ j.tos
                                                            ++ (codes " -a "
                                                            ++ (j.source
                                                            ++ (codes " "
                                                            ++ (vpn6 j ++ j.target))))))))))))))))))

-- `CommandDeadline`, in int64 arithmetic.
unfoldable pub command_deadline : Job → Duration
command_deadline j =
    wrap64 (wrap64 (j.count *ℤ wrap64 (j.timeout +ℤ j.packet_interval)) +ℤ pos 5000000000)
