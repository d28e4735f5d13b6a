-- ===== src/Tests/Keys.antt =====
-- The route keys of sample frontends, under a spelling of addresses and of quoted texts.
use sozu_gateway.Prelude.{ℕ, ◌+◌, ◌≡◌, ◌↔◌, refl, none, some, [], ◌∷◌, ◌++◌, arith}
use sozu_gateway.Prelude.Eq.{nat_eq}
use sozu_gateway.Prelude.Lists.{length}
use sozu_gateway.Prelude.Texts.{Text, codes, trim_end_matches}
use sozu_gateway.Prelude.{ℕ_discrete}
use sozu_gateway.Ir.Rule.{sozu_rule}
use sozu_gateway.Ir.{IpAddr, v4, v6, SocketAddr, Frontend, Ir, plain}
use sozu_gateway.Ir.RouteKey.{Show, sozu_route_key}
use sozu_gateway.Ir.RouteKey.Spelled.{
  IsPart, IsQuoting, IsSpelled, SameRoute, sozu_route_key-eq_iff,
}
use sozu_gateway.Translator.Frontends.{unique_frontends}
use sozu_gateway.Translator.Frontends.Firsts.{firsts, same_route, unique_frontends-firsts}
use sozu_gateway.Tests.Samples.{frontend, empty}

-- Characters above the separator.
abbrev ip_text : IpAddr → Text
ip_text (v4 n) = b'a' ∷ (n + 60) ∷ []
ip_text (v6 n) = b'b' ∷ (n + 60) ∷ []

-- A quoted text comes after its length.
abbrev spelling : Show
spelling = record { address = λ a. (a.port + 60) ∷ ip_text a.ip; debug = λ t. length t ∷ t }

ip-IsPart : (i : IpAddr) (n : ℕ) → IsPart ((n + 60) ∷ ip_text i)
ip-IsPart (v4 m) n = ground arith
ip-IsPart (v6 m) n = ground arith

ip_told : (i j : IpAddr) → ip_text i ≡ ip_text j → i ≡ j
ip_told (v4 m) (v4 n) e = ground arith
ip_told (v4 m) (v6 n) e = ground arith
ip_told (v6 m) (v4 n) e = ground arith
ip_told (v6 m) (v6 n) e = ground arith

same_length : (a b s t : Text) → length a ≡ length b → (a ++ s) ≡ (b ++ t) → (a ≡ b) × (s ≡ t)
same_length [] [] s t h e = (refl, e)
same_length [] (y ∷ b) s t h e = absurd (omega (arith, h))
same_length (x ∷ a) [] s t h e = absurd (omega (arith, h))
same_length (x ∷ a) (y ∷ b) s t h e =
    let head : x ≡ y = cc in
    let tail : (a ++ s) ≡ (b ++ t) = cc in
    let (same, rest) = same_length a b s t (omega (arith, h)) tail in (cc (head, same), rest)

quoted_told : (a b s t : Text) → ((length a ∷ a) ++ s) ≡ ((length b ∷ b) ++ t) → (a ≡ b) × (s ≡ t)
quoted_told a b s t e =
    let lengths : length a ≡ length b = cc in
    let texts : (a ++ s) ≡ (b ++ t) = cc in same_length a b s t lengths texts

address_told :
    (a b : SocketAddr) → spelling.address (plain a) ≡ spelling.address (plain b) → plain a ≡ plain b
unfolding plain
address_told a b e =
    let ports : (a.port + 60) ≡ b.port + 60 = cc in
    let ips : ip_text a.ip ≡ ip_text b.ip = cc in ground (arith, ports, ip_told a.ip b.ip ips)

address-IsPart : (a : SocketAddr) → IsPart (spelling.address (plain a))
unfolding plain
address-IsPart a = ip-IsPart a.ip a.port

spelling-IsQuoting : IsQuoting spelling
spelling-IsQuoting = record {
  address_part = address-IsPart;
  address_told = address_told;
  quoted = quoted_told;
}

-- A GET route, and the route of every method.
abbrev get_only : Frontend
get_only = record (frontend 7 none) { method = some (codes "GET") }

abbrev any_method : Frontend
any_method = frontend 7 none

get_only-IsSpelled : IsSpelled get_only
unfolding sozu_rule trim_end_matches ℕ_discrete
get_only-IsSpelled = record {
  host = refl;
  rule = refl;
  method = λ m e. let same : codes "GET" ≡ m = cc in rw (← same) (refl, refl);
}

any_method-IsSpelled : IsSpelled any_method
unfolding sozu_rule trim_end_matches ℕ_discrete
any_method-IsSpelled = record { host = refl; rule = refl; method = λ m e. cc }

sozu_route_key-eq_iff_example :
    (sozu_route_key spelling get_only ≡ sozu_route_key spelling any_method)
    ↔ SameRoute get_only any_method
sozu_route_key-eq_iff_example =
    sozu_route_key-eq_iff spelling spelling-IsQuoting get_only any_method get_only-IsSpelled
      any_method-IsSpelled

abbrev routed : Ir
routed = record empty { frontends = get_only ∷ any_method ∷ get_only ∷ [] }

unique_frontends-firsts_example :
    unique_frontends spelling routed ≡ firsts same_route [] (get_only ∷ any_method ∷ get_only ∷ [])
unique_frontends-firsts_example =
    unique_frontends-firsts spelling spelling-IsQuoting routed
      (get_only-IsSpelled, (any_method-IsSpelled, (get_only-IsSpelled, tt)))
