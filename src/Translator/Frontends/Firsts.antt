-- ===== src/Translator/Frontends/Firsts.antt =====
-- The HTTP(S) frontends that are kept (`unique_frontends`, crates/translator/src/lib.rs), by the
-- routes they are and not by the text of a key.
use sozu_gateway.Prelude.{
  ◌≡◌, refl, ap, ◌∙◌, inl, inr, Bool, true, ◌&&◌, ◌||◌, List, [], ◌∷◌, map, ℕ_discrete, arith,
}
use sozu_gateway.Prelude.Tests.{if◌then◌else◌, Bool-cases}
use sozu_gateway.Prelude.Eq.{
  Eq, ◌==◌, ==-refl, eq_of-==, ==_of_ne, nat_eq, list_eq, option_eq, bool_eq,
}
use sozu_gateway.Prelude.Lists.{All, any}
use sozu_gateway.Prelude.Lists.Keys.{contains, unique_from}
use sozu_gateway.Ir.{Ir, Frontend, SozuPathRule, address_eq, plain}
use sozu_gateway.Ir.Rule.{sozu_rule}
use sozu_gateway.Ir.Headers.{canonical, header_eq}
use sozu_gateway.Ir.RouteKey.{Show, SozuRouteKey, sozu_route_key, route_key_eq}
use sozu_gateway.Ir.RouteKey.Spelled.{IsQuoting, IsSpelled, SameRoute, sozu_route_key-eq_iff}
use sozu_gateway.Translator.Frontends.{unique_frontends}

unfoldable pub SozuPathRule_discrete : Discrete SozuPathRule
SozuPathRule_discrete = hlevel ℕ_discrete

instance abbrev pub rule_eq : Eq SozuPathRule
rule_eq = record { dec = SozuPathRule_discrete }

-- The test of `SameRoute`.
abbrev pub same_route : Frontend → Frontend → Bool
same_route f g =
    f.tls == g.tls
    && plain f.listener == plain g.listener
    && f.hostname == g.hostname
    && sozu_rule f.path == sozu_rule g.path
    && f.method == g.method
    && canonical f.header_matches == canonical g.header_matches

SameRoute-of-same_route : (f g : Frontend) → same_route f g ≡ true → SameRoute f g
SameRoute-of-same_route f g h = record {
  tls = eq_of-== _ _ (ground (arith, h));
  listener = eq_of-== _ _ (ground (arith, h));
  hostname = eq_of-== _ _ (ground (arith, h));
  rule = eq_of-== _ _ (ground (arith, h));
  method = eq_of-== _ _ (ground (arith, h));
  headers = eq_of-== _ _ (ground (arith, h));
}

same_route_of : (f g : Frontend) → SameRoute f g → same_route f g ≡ true
same_route_of f g s = ground arith

-- The elements with none alike before them; `earlier` stands before the list.
abbrev pub firsts {ℓ} : {A : Type ℓ} → (A → A → Bool) → List A → List A → List A
firsts same earlier [] = []
firsts same earlier (x ∷ xs) =
    let rest = firsts same (x ∷ earlier) xs in if any (same x) earlier then rest else x ∷ rest

module _ (show : Show) (quoting : IsQuoting show) where
  key_test :
      (f g : Frontend)
      → IsSpelled f
      → IsSpelled g
      → (sozu_route_key show f == sozu_route_key show g) ≡ same_route f g
  key_test f g sf sg = elim (Bool-cases (same_route f g)) [
    | inl t ↦
        let same =
          (sozu_route_key-eq_iff show quoting f g sf sg).1 (SameRoute-of-same_route f g t) in
        rw t (rw same (==-refl (sozu_route_key show g)))
    | inr t ↦ rw t (
        ==_of_ne _ _ (λ e.
          let told = same_route_of f g ((sozu_route_key-eq_iff show quoting f g sf sg).0 e) in
          cc (told, t)))
  ]

  seen_test :
      (f : Frontend) (earlier : List Frontend)
      → IsSpelled f
      → All IsSpelled earlier
      → contains (sozu_route_key show f) (map (sozu_route_key show) earlier)
        ≡ any (same_route f) earlier
  seen_test f [] sf h = refl
  seen_test f (g ∷ earlier) sf (sg, h) =
      ground (arith, key_test f g sf sg, seen_test f earlier sf h)

  -- A key that was seen changes nothing.
  seen_again :
      (k j : SozuRouteKey) (seen : List SozuRouteKey)
      → contains j seen ≡ true
      → contains k seen ≡ (k == j || contains k seen)
  seen_again k j seen h = elim (Bool-cases (k == j)) [
    | inl t ↦ rw t (ap (λ i. contains i seen) (eq_of-== k j t) ∙ h)
    | inr t ↦ rw t refl
  ]

  unique_from-firsts :
      (seen : List SozuRouteKey) (earlier fs : List Frontend)
      → ((k : SozuRouteKey) → contains k seen ≡ contains k (map (sozu_route_key show) earlier))
      → All IsSpelled earlier
      → All IsSpelled fs
      → unique_from (sozu_route_key show) seen fs ≡ firsts same_route earlier fs
  unique_from-firsts seen earlier [] h s t = refl
  unique_from-firsts seen earlier (f ∷ fs) h s (sf, t) =
      let key = sozu_route_key show f in
      let test = h key ∙ seen_test f earlier sf s in
      elim (Bool-cases (any (same_route f) earlier)) [
        | inl e ↦
            rw (test, e)
              (unique_from-firsts seen (f ∷ earlier) fs
                (λ k. seen_again k key seen (test ∙ e) ∙ ap (λ b. k == key || b) (h k)) (sf, s) t)
        | inr e ↦
            rw (test, e)
              (ap (λ l. f ∷ l)
                (unique_from-firsts (key ∷ seen) (f ∷ earlier) fs
                  (λ k. ap (λ b. k == key || b) (h k)) (sf, s) t))
      ]

  -- The kept frontends are, in order, those that no earlier one is the same route as: the same
  -- protocol, address, host, rule, method and header conditions. Their hosts, rules and methods
  -- have no `;`, and the methods no `:`; an address is told by its text, which has no `;`, and a
  -- quoted text ends where its quote does.
  pub unique_frontends-firsts :
      (ir : Ir)
      → All IsSpelled ir.frontends
      → unique_frontends show ir ≡ firsts same_route [] ir.frontends
  unfolding unique_frontends
  unique_frontends-firsts ir t = unique_from-firsts [] [] ir.frontends (λ k. refl) tt t
