-- ===== src/Config/Check/Routers.antt =====
-- The loop of `Validate` over the routers accepts exactly the valid lists of routers, and the map
-- that it fills finds the same router as `Config.Router`.
use smokeping_prober.Prelude.{
  ℕ, suc, none, some, Option, List, [], ◌∷◌, ◌≡◌, ◌≢◌, ◌↔◌, refl, arith, Text, All, DistinctBy,
  Dict, lookup, insert, ok, text_eq_iff,
}
use smokeping_prober.Net.{Net}
use smokeping_prober.Config.{Router, find_router}
use smokeping_prober.Config.Check.{check_router, check_routers}
use smokeping_prober.Config.Check.Links.{check_links_iff}
use smokeping_prober.Config.Valid.{IsRouter}

abbrev Fresh : Dict Router → Router → Type 0
Fresh m r = lookup r.name m ≡ none

module _ (net : Net) where
  check_router_iff :
      (i : ℕ) (m : Dict Router) (r : Router)
      → (check_router net i m r ≡ none) ↔ (IsRouter net r × Fresh m r)
  unfolding check_router
  check_router_iff i m r = ground (arith, check_links_iff net r.name r.links)

  Fresh-insert :
      (r : Router) (m : Dict Router) (rs : List Router)
      → All (Fresh (insert r.name r m)) rs ↔ (All (λ s. r.name ≢ s.name) rs × All (Fresh m) rs)
  Fresh-insert r m [] = ground arith
  Fresh-insert r m (s ∷ rs) = ground (arith, text_eq_iff r.name s.name, Fresh-insert r m rs)

  abbrev AreRouters : Dict Router → List Router → Type 0
  AreRouters m rs =
      All (IsRouter net) rs × DistinctBy (λ (r : Router). r.name) rs × All (Fresh m) rs

  check_routers-AreRouters :
      (i : ℕ) (m m' : Dict Router) (rs : List Router)
      → check_routers net i m rs ≡ ok m'
      → AreRouters m rs
  unfolding check_routers
  check_routers-AreRouters i m m' [] e = ground arith
  check_routers-AreRouters i m m' (r ∷ rs) e = ground (
    arith,
    check_router_iff i m r,
    check_routers-AreRouters (suc i) (insert r.name r m) m' rs,
    Fresh-insert r m rs,
  )

  AreRouters-check_routers :
      (i : ℕ) (m : Dict Router) (rs : List Router)
      → AreRouters m rs
      → (m' : Dict Router) × (check_routers net i m rs ≡ ok m')
  unfolding check_routers
  AreRouters-check_routers i m [] a = (m, refl)
  AreRouters-check_routers i m (r ∷ rs) a =
      let accepted : check_router net i m r ≡ none = ground (arith, check_router_iff i m r) in
      let (m', e) =
        AreRouters-check_routers (suc i) (insert r.name r m) rs
          (ground (arith, Fresh-insert r m rs)) in
      (m', ground arith)

  find_router-none :
      (name : Text) (rs : List Router) → All (λ r. name ≢ r.name) rs → find_router rs name ≡ none
  unfolding find_router
  find_router-none name [] a = refl
  find_router-none name (r ∷ rs) a =
      ground (arith, text_eq_iff r.name name, find_router-none name rs)

  abbrev or_else : Option Router → Option Router → Option Router
  or_else none o = o
  or_else (some r) o = some r

  lookup-check_routers_from :
      (i : ℕ) (m m' : Dict Router) (rs : List Router) (name : Text)
      → check_routers net i m rs ≡ ok m'
      → lookup name m' ≡ or_else (find_router rs name) (lookup name m)
  unfolding check_routers find_router
  lookup-check_routers_from i m m' [] name e = ground arith
  lookup-check_routers_from i m m' (r ∷ rs) name e =
      let valid = check_routers-AreRouters i m m' (r ∷ rs) e in
      let other = find_router-none r.name rs valid.1.0 in
      ground (
        arith,
        lookup-check_routers_from (suc i) (insert r.name r m) m' rs name,
        other,
        text_eq_iff r.name name,
      )

  abbrev pub HaveRouters : List Router → Type 0
  HaveRouters rs = All (IsRouter net) rs × DistinctBy (λ (r : Router). r.name) rs

  pub check_routers-HaveRouters :
      (rs : List Router) {m : Dict Router} → check_routers net 0 [] rs ≡ ok m → HaveRouters rs
  check_routers-HaveRouters rs {m} e = let a = check_routers-AreRouters 0 [] m rs e in (a.0, a.1)

  All-Fresh : (rs : List Router) → All (Fresh []) rs
  All-Fresh [] = tt
  All-Fresh (r ∷ rs) = (refl, All-Fresh rs)

  pub HaveRouters-check_routers :
      (rs : List Router) → HaveRouters rs → (m : Dict Router) × (check_routers net 0 [] rs ≡ ok m)
  HaveRouters-check_routers rs h = AreRouters-check_routers 0 [] rs (h.0, h.1, All-Fresh rs)

  pub lookup-check_routers :
      (rs : List Router) {m : Dict Router} (name : Text)
      → check_routers net 0 [] rs ≡ ok m
      → lookup name m ≡ find_router rs name
  lookup-check_routers rs {m} name e = ground (arith, lookup-check_routers_from 0 [] m rs name e)
