-- ===== src/Net.antt =====
-- Package net, as config/config.go and remote/targets.go use it: addresses, the parser of address
-- literals, and the resolver of host names. Parser, printer and resolver are parameters.
use smokeping_prober.Prelude.{
  ℕ, zero, suc, Bool, ◌&&◌, ◌||◌, Option, List, [], ◌∷◌, Text, Result, length, all, ◌==◌,
}

-- A `net.IP`: its bytes.
abbrev pub Ip : Type 0
Ip = List ℕ

byte_at : Ip → ℕ → ℕ
byte_at [] i = 0
byte_at (b ∷ bs) zero = b
byte_at (b ∷ bs) (suc i) = byte_at bs i

-- `ip.To4() != nil`: 4 bytes, or the 16 bytes of an IPv4-mapped address.
unfoldable pub is_v4 : Ip → Bool
unfolding byte_at
is_v4 ip =
    length ip == 4
    || (length ip == 16
        && all (λ i. byte_at ip i == 0) (0 ∷ 1 ∷ 2 ∷ 3 ∷ 4 ∷ 5 ∷ 6 ∷ 7 ∷ 8 ∷ 9 ∷ [])
        && byte_at ip 10 == 255
        && byte_at ip 11 == 255)

pub record Net : Type 1 where
  -- The errors of the resolver.
  pub LookupError : Type 0
  -- `net.ParseIP`, with nil as `none`.
  pub parse_ip : Text → Option Ip
  -- `IP.String`
  pub ip_string : Ip → Text
  -- `DefaultResolver.LookupIP` for a network and a host
  pub lookup_ip : Text → Text → Result LookupError (List Ip)
