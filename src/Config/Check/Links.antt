-- ===== src/Config/Check/Links.antt =====
-- The loop of `Validate` over the links of a router accepts exactly the valid lists of links.
use smokeping_prober.Prelude.{
  ℕ, true, false, none, List, [], ◌∷◌, ◌≡◌, ◌≢◌, ◌↔◌, arith, Text, All, all, all_iff,
  contains-false_iff,
}
use smokeping_prober.Net.{Net}
use smokeping_prober.Config.{Link}
use smokeping_prober.Config.Check.{check_link, check_links, vpn_char, is_v4_text, is_v6_text}
use smokeping_prober.Config.Valid.{IsVpnChar, IsLiteral, IsLink, AreLinks}

vpn_char_iff : (c : ℕ) → (vpn_char c ≡ true) ↔ IsVpnChar c
vpn_char_iff c = ground arith

all-vpn_char_iff : (t : Text) → (all vpn_char t ≡ true) ↔ All IsVpnChar t
all-vpn_char_iff t = all_iff vpn_char t vpn_char_iff

module _ (net : Net) where
  is_v4_text_iff : (t : Text) → (is_v4_text net t ≡ true) ↔ IsLiteral net true t
  is_v4_text_iff t = ground arith

  is_v6_text_iff : (t : Text) → (is_v6_text net t ≡ true) ↔ IsLiteral net false t
  is_v6_text_iff t = ground arith

  pub check_link_iff :
      (router : Text) (seen : List Text) (l : Link)
      → (check_link net router seen l ≡ none) ↔ (IsLink net l × All (λ n. n ≢ l.name) seen)
  unfolding check_link
  check_link_iff router seen l = ground (
    arith,
    contains-false_iff seen l.name,
    all-vpn_char_iff l.vpn_instance,
    is_v4_text_iff l.source,
    is_v6_text_iff l.source6,
  )

  Seen-cons :
      (name : Text) (seen : List Text) (ls : List Link)
      → All (λ l. All (λ n. n ≢ l.name) (name ∷ seen)) ls
        ↔ (All (λ l. name ≢ l.name) ls × All (λ l. All (λ n. n ≢ l.name) seen) ls)
  Seen-cons name seen [] = ground arith
  Seen-cons name seen (l ∷ ls) = ground (arith, Seen-cons name seen ls)

  check_links_iff_seen :
      (router : Text) (seen : List Text) (ls : List Link)
      → (check_links net router seen ls ≡ none)
        ↔ (AreLinks net ls × All (λ l. All (λ n. n ≢ l.name) seen) ls)
  unfolding check_links
  check_links_iff_seen router seen [] = ground arith
  check_links_iff_seen router seen (l ∷ ls) = ground (
    arith,
    check_link_iff router seen l,
    Seen-cons l.name seen ls,
    check_links_iff_seen router (l.name ∷ seen) ls,
  )

  All-trivial : (ls : List Link) → All (λ l. All (λ n. n ≢ l.name) []) ls
  All-trivial [] = tt
  All-trivial (l ∷ ls) = (tt, All-trivial ls)

  pub check_links_iff :
      (router : Text) (ls : List Link) → (check_links net router [] ls ≡ none) ↔ AreLinks net ls
  check_links_iff router ls = ground (arith, check_links_iff_seen router [] ls, All-trivial ls)
