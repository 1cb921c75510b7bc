-- ===== src/Prober/Prepare/Covers.antt =====
-- Lists of probes that cover a list of hosts under a bound on their intervals.
use smokeping_prober.Prelude.{
  ℤ, pos, ◌≤ℤ◌, List, [], ◌∷◌, ◌++◌, ◌≡◌, refl, ap, ◌∙◌, arith, Text, map, All, All-map, All-append,
  Result, ok,
}
use mathlib.Core.Path.{subst, Path}
use smokeping_prober.Config.{Duration, TargetGroup}
use smokeping_prober.Prober.{Pinger, Probe, Probing}
use smokeping_prober.Prober.Prepare.{max_duration}

-- What the prober relies on: a new pinger has the host as its address, and `Resolve` changes
-- neither the host nor the interval nor the packet size.
unfoldable pub KeepsPinger : Probing → Type 0
KeepsPinger probing =
    ((host : Text) → (probing.new_pinger host).addr ≡ host)
    × ((p q : Pinger)
        → probing.resolve_pinger p ≡ ok q
        → (q.addr ≡ p.addr) × (q.interval ≡ p.interval) × (q.size ≡ p.size))

abbrev pub addr_of : Probe → Text
addr_of pr = pr.pinger.addr

-- The hosts of the groups, in order.
abbrev pub group_hosts : List TargetGroup → List Text
group_hosts [] = []
group_hosts (tg ∷ tgs) = tg.hosts ++ group_hosts tgs

-- The packet sizes that the prober allows.
abbrev pub InRange : ℤ → Type 0
InRange size = (pos 24 ≤ℤ size) × (size ≤ℤ pos 65535)

-- The probes are those of these hosts, none has an interval above the bound, and the packet size of
-- each is in the range.
pub Covers : List Probe → List Text → Duration → Type 0
Covers probes hosts bound =
    (map addr_of probes ≡ hosts)
    × All (λ pr. (pr.pinger.interval ≤ℤ bound) × InRange pr.pinger.size) probes

map-append : (xs ys : List Probe) → map addr_of (xs ++ ys) ≡ map addr_of xs ++ map addr_of ys
map-append [] ys = refl
map-append (x ∷ xs) ys = ap (λ zs. addr_of x ∷ zs) (map-append xs ys)

pub Covers-nil : (bound : Duration) → Covers [] [] bound
unfolding Covers
Covers-nil bound = (refl, tt)

pub Covers-add :
    (probes : List Probe) (hosts : List Text) (bound : Duration) (pr : Probe) (host : Text)
    → Covers probes hosts bound
    → pr.pinger.addr ≡ host
    → pr.pinger.interval ≤ℤ bound
    → InRange pr.pinger.size
    → Covers (probes ++ pr ∷ []) (hosts ++ host ∷ []) bound
unfolding Covers
Covers-add probes hosts bound pr host h a i size = (
  map-append probes (pr ∷ []) ∙ ap (λ hs. hs ++ addr_of pr ∷ []) h.0 ∙ ap (λ x. hosts ++ x ∷ []) a,
  All-append _ probes (pr ∷ []) h.1 ((i, size), tt),
)

pub Covers-raise :
    (probes : List Probe) (hosts : List Text) (a b : Duration)
    → a ≤ℤ b
    → Covers probes hosts a
    → Covers probes hosts b
unfolding Covers
Covers-raise probes hosts a b le h =
    (h.0, All-map probes (λ pr x. (omega (arith, x.0, le), x.1)) h.1)

pub Covers-same :
    (ps qs : List Probe) (hs is : List Text) (bound : Duration)
    → Covers ps hs bound
    → ps ≡ qs
    → hs ≡ is
    → Covers qs is bound
Covers-same ps qs hs is bound h p q =
    subst (λ x. Covers x is bound) p (subst (λ x. Covers ps x bound) q h)

pub ok-injective : {E A : Type 0} {a b : A} → Path (Result E A) (ok a) (ok b) → a ≡ b
ok-injective e = ground (arith, e)

pub max_duration-bound : (a b : Duration) → (a ≤ℤ max_duration a b) × (b ≤ℤ max_duration a b)
max_duration-bound a b = ground arith
