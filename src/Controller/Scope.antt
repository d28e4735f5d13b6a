-- ===== src/Controller/Scope.antt =====
-- The Gateways that an instance of the controller owns, crates/controller/src/scope.rs. An error
-- is kept as the text that its message quotes.
pub mod Owners
pub mod Names
use sozu_gateway.Prelude.{
  ℕ, Bool, true, false, not, ◌&&◌, ◌||◌, Option, none, some, List, [], ◌∷◌, ◌++◌, ℕ_discrete,
}
use sozu_gateway.Prelude.Tests.{if◌then◌else◌, leb, ltb}
use sozu_gateway.Prelude.Eq.{Eq, ◌==◌, nat_eq, list_eq}
use sozu_gateway.Prelude.Lists.{all, any, filter, is_empty}
use sozu_gateway.Prelude.Lists.Keys.{contains}
use sozu_gateway.Prelude.Results.{Result, ok, err}
use sozu_gateway.Prelude.Texts.{Text, codes, byte_length, starts_with}

pub record GatewayId : Type 0 where
  pub namespace : Text
  pub name : Text

unfoldable pub GatewayId_discrete : Discrete GatewayId
GatewayId_discrete = hlevel ℕ_discrete

instance abbrev pub gateway_eq : Eq GatewayId
gateway_eq = record { dec = GatewayId_discrete }

unfoldable pub is_dns_char : ℕ → Bool
is_dns_char c = leb b'a' c && leb c b'z' || leb b'0' c && leb c b'9' || c == b'-'

-- `ends_with('-')`
unfoldable pub ends_with_dash : Text → Bool
ends_with_dash [] = false
ends_with_dash (c ∷ []) = c == b'-'
ends_with_dash (c ∷ d ∷ s) = ends_with_dash (d ∷ s)

unfoldable pub dns_label : Text → Bool
dns_label s =
    not (is_empty s)
    && leb (byte_length s) 63
    && all is_dns_char s
    && not (starts_with s (codes "-"))
    && not (ends_with_dash s)

-- `split_once(c)`
unfoldable pub split_once : ℕ → Text → Option (Text × Text)
split_once c [] = none
split_once c (x ∷ s) =
    let later : Option (Text × Text) = elim (split_once c s) [
      | none ↦ none
      | some (before, behind) ↦ some (x ∷ before, behind)
    ] in
    if x == c then some ([], s) else later

-- `split(c)`
unfoldable pub split : ℕ → Text → List Text
split c [] = [] ∷ []
split c (x ∷ s) = elim (split c s) [
  | [] ↦ (x ∷ []) ∷ []
  | part ∷ parts ↦ if x == c then [] ∷ part ∷ parts else (x ∷ part) ∷ parts
]

pub data ScopeError : Type 0 where
  not_a_pair : Text → ScopeError
  bad_names : Text → ScopeError
  excluded_twice : GatewayId → ScopeError

-- A DNS namespace and Gateway name.
unfoldable pub has_dns_names : Text → Text → Bool
has_dns_names namespace name =
    dns_label namespace && leb (byte_length name) 253 && all dns_label (split b'.' name)

unfoldable pub from_str : Text → Result ScopeError GatewayId
from_str value = elim (split_once b'/' value) [
  | none ↦ err (not_a_pair value)
  | some (namespace, name) ↦
      if not (has_dns_names namespace name)
      then err (bad_names value)
      else ok (record { namespace = namespace; name = name })
]

unfoldable pub to_string : GatewayId → Text
to_string id = id.namespace ++ b'/' ∷ id.name

pub record GatewayScope : Type 0 where
  pub ingress_only : Bool
  pub gateway_scope : Option GatewayId
  pub exclude_gateway : List GatewayId

-- The loop of `validate`, over the Gateways that were not seen yet.
unfoldable pub validate_from : List GatewayId → List GatewayId → Result ScopeError (Unit {0})
validate_from seen [] = ok tt
validate_from seen (gateway ∷ rest) =
    let later = validate_from (gateway ∷ seen) rest in
    if contains gateway seen then err (excluded_twice gateway) else later

unfoldable pub validate : GatewayScope → Result ScopeError (Unit {0})
unfolding validate_from
validate scope = validate_from [] scope.exclude_gateway

unfoldable pub is_default : GatewayScope → Bool
is_default scope = elim scope.gateway_scope [ none ↦ true | some gateway ↦ false ]

abbrev pub is_named : Text → Text → GatewayId → Bool
is_named namespace name gateway = gateway.namespace == namespace && gateway.name == name

unfoldable pub owns_gateway : GatewayScope → Text → Text → Bool
owns_gateway scope namespace name = if scope.ingress_only then false else elim scope.gateway_scope [
  | some gateway ↦ is_named namespace name gateway
  | none ↦ not (any (is_named namespace name) scope.exclude_gateway)
]

abbrev pub unwrap_or : Text → Option Text → Text
unwrap_or fallback none = fallback
unwrap_or fallback (some t) = t

unfoldable pub owns_parent :
    GatewayScope → Text → Option Text → Option Text → Option Text → Text → Bool
unfolding owns_gateway
owns_parent scope route_namespace group kind namespace name =
    unwrap_or (codes "gateway.networking.k8s.io") group == codes "gateway.networking.k8s.io"
    && unwrap_or (codes "Gateway") kind == codes "Gateway"
    && owns_gateway scope (unwrap_or route_namespace namespace) name

-- A Gateway as the filter reads it, and the inputs that it changes.
pub record GatewayMeta : Type 0 where
  pub namespace : Option Text
  pub name : Option Text

pub record ScopedInputs (Ingress : Type 0) : Type 0 where
  pub ingresses : List Ingress
  pub gateways : List GatewayMeta

unfoldable pub filter_inputs :
    {Ingress : Type 0} → GatewayScope → ScopedInputs Ingress → ScopedInputs Ingress
unfolding is_default owns_gateway
filter_inputs scope inputs = record {
  ingresses = if is_default scope then inputs.ingresses else [];
  gateways =
      filter
        (λ (g : GatewayMeta).
          owns_gateway scope (unwrap_or (codes "default") g.namespace) (unwrap_or [] g.name))
        inputs.gateways;
}
