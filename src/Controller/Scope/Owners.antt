-- ===== src/Controller/Scope/Owners.antt =====
-- One owner for each Gateway (`owns_gateway` and `validate`, crates/controller/src/scope.rs).
use sozu_gateway.Prelude.{
  ℕ, ◌+◌, ◌≡◌, refl, ap, sym, ◌∙◌, inl, inr, Bool, true, false, none, some, List, [], ◌∷◌, map,
  arith,
}
use sozu_gateway.Prelude.Tests.{if◌then◌else◌, Bool-cases}
use sozu_gateway.Prelude.Eq.{nat_eq, list_eq, ==-refl, eq_of-==}
use sozu_gateway.Prelude.Lists.{any, filter, length}
use sozu_gateway.Prelude.Lists.Keys.{contains}
use sozu_gateway.Prelude.Results.{ok}
use sozu_gateway.Prelude.Texts.{Text}
use sozu_gateway.Controller.Scope.{
  GatewayId, gateway_eq, GatewayScope, validate_from, validate, is_named, owns_gateway,
}

-- The instance that serves one Gateway.
abbrev pub dedicated : GatewayId → GatewayScope
dedicated gateway = record {
  ingress_only = false;
  gateway_scope = some gateway;
  exclude_gateway = [];
}

-- The instance that serves all but some.
abbrev pub shared : List GatewayId → GatewayScope
shared gateways = record { ingress_only = false; gateway_scope = none; exclude_gateway = gateways }

-- How many of the instances own a Gateway.
abbrev pub owners : List GatewayScope → Text → Text → ℕ
owners scopes namespace name = length (filter (λ s. owns_gateway s namespace name) scopes)

module _ (namespace name : Text) where
  abbrev target : GatewayId
  target = record { namespace = namespace; name = name }

  abbrev named : GatewayId → Bool
  named g = is_named namespace name g

  abbrev count : List GatewayId → ℕ
  count gs = owners (map dedicated gs) namespace name

  named_eq : (g : GatewayId) → named g ≡ true → g ≡ target
  named_eq g h =
      let ns = eq_of-== g.namespace namespace (ground (arith, h)) in
      let nm = eq_of-== g.name name (ground (arith, h)) in
      ap (λ (n : Text). record { namespace = n; name = g.name }) ns
      ∙ ap (λ (n : Text). record { namespace = namespace; name = n }) nm

  count-named :
      (g : GatewayId) (gs : List GatewayId) → named g ≡ true → count (g ∷ gs) ≡ 1 + count gs
  unfolding owns_gateway
  count-named g gs h = ground (arith, h)

  count-other : (g : GatewayId) (gs : List GatewayId) → named g ≡ false → count (g ∷ gs) ≡ count gs
  unfolding owns_gateway
  count-other g gs h = ground (arith, h)

  validated :
      (seen : List GatewayId) (g : GatewayId) (gs : List GatewayId)
      → validate_from seen (g ∷ gs) ≡ ok tt
      → (contains g seen ≡ false) × (validate_from (g ∷ seen) gs ≡ ok tt)
  unfolding validate_from
  validated seen g gs h = elim (Bool-cases (contains g seen)) [
    | inl t ↦ ground (arith, h, t)
    | inr t ↦ (t, ground (arith, h, t))
  ]

  -- A Gateway that was seen is not excluded again.
  none_left :
      (seen gs : List GatewayId)
      → validate_from seen gs ≡ ok tt
      → contains target seen ≡ true
      → (count gs ≡ 0) × (any named gs ≡ false)
  none_left seen [] h k = (refl, refl)
  none_left seen (g ∷ gs) h k =
      let (fresh, later) = validated seen g gs h in
      elim (Bool-cases (named g)) [
        | inl t ↦
            let again : contains g seen ≡ true = ap (λ x. contains x seen) (named_eq g t) ∙ k in
            ground (arith, fresh, again)
        | inr t ↦
            let (c, a) = none_left (g ∷ seen) gs later (ground (arith, k)) in
            (count-other g gs t ∙ c, ground (arith, t, a))
      ]

  one_each :
      (seen gs : List GatewayId)
      → validate_from seen gs ≡ ok tt
      → count gs ≡ (if any named gs then 1 else 0)
  one_each seen [] h = refl
  one_each seen (g ∷ gs) h =
      let (fresh, later) = validated seen g gs h in
      elim (Bool-cases (named g)) [
        | inl t ↦
            let here : contains target (g ∷ seen) ≡ true =
              sym (ap (λ x. contains x (g ∷ seen)) (named_eq g t)) ∙ ground (arith, ==-refl g) in
            let (c, a) = none_left (g ∷ seen) gs later here in
            ground (arith, count-named g gs t, c, t)
        | inr t ↦ ground (arith, count-other g gs t, one_each (g ∷ seen) gs later, t)
      ]

  -- With an instance for each excluded Gateway beside the one that excludes them, every Gateway has
  -- exactly one owner, once the scope is valid.
  pub owners-validate :
      (gateways : List GatewayId)
      → validate (shared gateways) ≡ ok tt
      → owners (shared gateways ∷ map dedicated gateways) namespace name ≡ 1
  unfolding validate owns_gateway
  owners-validate gateways h =
      let c = one_each [] gateways h in
      elim (Bool-cases (any named gateways)) [
        | inl t ↦ ground (arith, c, t)
        | inr t ↦ ground (arith, c, t)
      ]
