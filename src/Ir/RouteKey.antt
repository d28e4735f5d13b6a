-- ===== src/Ir/RouteKey.antt =====
-- `Frontend::sozu_route_key`, crates/ir/src/lib.rs: the identity under which Sōzu stores an
-- HTTP(S) frontend. How an address is displayed and how `Debug` quotes a text are the standard
-- library's, taken as parameters.
pub mod Spelled
use sozu_gateway.Prelude.{Bool, Option, none, some, [], ◌∷◌, ◌++◌, ℕ_discrete}
use sozu_gateway.Prelude.Eq.{Eq}
use sozu_gateway.Prelude.Lists.{flat_map}
use sozu_gateway.Prelude.Texts.{Text, codes}
use sozu_gateway.Ir.{Frontend, HeaderMatch, HeaderMatchKind, SocketAddr, SozuPathRule, plain}
use sozu_gateway.Ir.Rule.{sozu_rule}
use sozu_gateway.Ir.Headers.{canonical, sozu_kind_and_value}

-- `Display` of an address and `Debug` of a text.
pub record Show : Type 0 where
  pub address : SocketAddr → Text
  pub debug : Text → Text

pub record SozuRouteKey : Type 0 where
  pub https : Bool
  pub key : Text

unfoldable pub SozuRouteKey_discrete : Discrete SozuRouteKey
SozuRouteKey_discrete = hlevel ℕ_discrete

instance abbrev pub route_key_eq : Eq SozuRouteKey
route_key_eq = record { dec = SozuRouteKey_discrete }

-- `{kind}{rule}`
unfoldable pub show_rule : SozuPathRule → Text
show_rule (SozuPathRule.prefix v) = b'P' ∷ v
show_rule (SozuPathRule.regex v) = b'R' ∷ v

unfoldable pub show_method : Option Text → Text
show_method none = []
show_method (some method) = b';' ∷ method

-- `{kind}`: the number of the kind, in digits
unfoldable pub show_kind : HeaderMatchKind → Text
show_kind (HeaderMatchKind.exact v) = codes "0"
show_kind (HeaderMatchKind.regex v) = codes "1"

module _ (show : Show) where
  -- `;H{kind}:{name:?}={value:?}`
  unfoldable pub show_predicate : HeaderMatch → Text
  show_predicate m =
      codes ";H"
      ++ show_kind m.kind
      ++ b':' ∷ show.debug m.name
      ++ b'=' ∷ show.debug (sozu_kind_and_value m.kind).1

  -- `{address};{hostname};{kind}{rule}[;{method}]` and the predicates in canonical order.
  unfoldable pub sozu_route_key : Frontend → SozuRouteKey
  sozu_route_key f = record {
    https = f.tls;
    key =
        show.address (plain f.listener)
        ++ b';' ∷ f.hostname
        ++ b';' ∷ show_rule (sozu_rule f.path)
        ++ show_method f.method
        ++ flat_map show_predicate (canonical f.header_matches);
  }
