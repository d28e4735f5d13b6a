-- ===== src/Builder/Routes.antt =====
-- What the builder knows of two routes on one hostname, crates/builder/src/lib.rs: their paths and
-- methods, whether one request can match both, and which one the Gateway API serves. The `regex`
-- crate is a parameter; its cache of compiled patterns is left out.
pub mod Paths
pub mod Collisions
use Prim.Native.Nat.{compare, Ordering}
use sozu_gateway.Prelude.{ℕ, Bool, true, false, not, ◌&&◌, ◌||◌, Option, none, some, List, [], ◌∷◌}
use sozu_gateway.Prelude.Tests.{if◌then◌else◌, is_some, ltb}
use sozu_gateway.Prelude.Eq.{◌==◌, nat_eq, list_eq}
use sozu_gateway.Prelude.Lists.{all, filter, is_empty, length}
use sozu_gateway.Prelude.Texts.{
  Text, byte_length, codes, starts_with, strip_prefix, trim_end_matches,
}
use sozu_gateway.Ir.{Frontend, HeaderMatch, HeaderMatchKind, PathMatch}

-- A prefix without its trailing slashes; the root is empty.
unfoldable pub prefix_body : Text → Text
prefix_body prefix = trim_end_matches b'/' prefix

-- The end of a path element.
abbrev pub ends_element : Text → Bool
ends_element rest = is_empty rest || starts_with rest (codes "/") || starts_with rest (codes "?")

unfoldable pub prefix_covers : Text → Text → Bool
prefix_covers prefix target =
    is_empty (prefix_body prefix) || elim (strip_prefix target (prefix_body prefix)) [
      | none ↦ false
      | some rest ↦ ends_element rest
    ]

abbrev pub queried : Text → Text → Bool
queried target path = elim (strip_prefix target path) [
  | none ↦ false
  | some rest ↦ starts_with rest (codes "?")
]

-- Whether some request target matches both paths.
unfoldable pub paths_meet : PathMatch → PathMatch → Bool
paths_meet (PathMatch.regex r) b = true
paths_meet (PathMatch.exact x) (PathMatch.regex r) = true
paths_meet (PathMatch.prefix x) (PathMatch.regex r) = true
paths_meet (PathMatch.prefix x) (PathMatch.prefix y) =
    prefix_covers x (prefix_body y) || prefix_covers y (prefix_body x)
paths_meet (PathMatch.exact x) (PathMatch.prefix p) = prefix_covers p x || queried (prefix_body p) x
paths_meet (PathMatch.prefix p) (PathMatch.exact x) = prefix_covers p x || queried (prefix_body p) x
paths_meet (PathMatch.exact x) (PathMatch.exact y) = x == y || queried x y || queried y x

unfoldable pub methods_meet : Frontend → Frontend → Bool
methods_meet a b = elim a.method [
  | none ↦ true
  | some x ↦ elim b.method [ none ↦ true | some y ↦ x == y ]
]

-- `regex::bytes::Regex::new` on the anchored pattern.
abbrev pub Regexes : Type 0
Regexes = Text → Option (Text → Bool)

unfoldable pub accepts : Regexes → Text → Text → Bool
accepts compile pattern value = elim (compile pattern) [
  | none ↦ true
  | some is_match ↦ is_match value
]

unfoldable pub kinds_meet : Regexes → HeaderMatchKind → HeaderMatchKind → Bool
kinds_meet compile (HeaderMatchKind.exact v) (HeaderMatchKind.exact w) = v == w
kinds_meet compile (HeaderMatchKind.exact v) (HeaderMatchKind.regex r) = accepts compile r v
kinds_meet compile (HeaderMatchKind.regex r) (HeaderMatchKind.exact v) = accepts compile r v
kinds_meet compile (HeaderMatchKind.regex r) (HeaderMatchKind.regex s) = true

unfoldable pub can_meet : Regexes → Frontend → Frontend → Bool
can_meet compile a b =
    methods_meet a b
    && paths_meet a.path b.path
    && all
        (λ (x : HeaderMatch).
          all (λ (y : HeaderMatch). kinds_meet compile x.kind y.kind)
            (filter (λ (y : HeaderMatch). y.name == x.name) b.header_matches))
        a.header_matches

-- `Ordering::then`
abbrev pub and_then : Ordering → Ordering → Ordering
and_then Ordering.lt later = Ordering.lt
and_then Ordering.eq later = later
and_then Ordering.gt later = Ordering.gt

-- `Ord` of `bool`
abbrev pub compare_bool : Bool → Bool → Ordering
compare_bool false false = Ordering.eq
compare_bool false true = Ordering.lt
compare_bool true false = Ordering.gt
compare_bool true true = Ordering.eq

unfoldable pub path_precedence : Frontend → Frontend → PathMatch → PathMatch → Ordering
path_precedence a b (PathMatch.regex r) y =
    compare_bool (is_empty b.header_matches) (is_empty a.header_matches)
path_precedence a b (PathMatch.exact x) (PathMatch.regex r) =
    compare_bool (is_empty b.header_matches) (is_empty a.header_matches)
path_precedence a b (PathMatch.prefix x) (PathMatch.regex r) =
    compare_bool (is_empty b.header_matches) (is_empty a.header_matches)
path_precedence a b (PathMatch.exact x) (PathMatch.prefix y) = Ordering.gt
path_precedence a b (PathMatch.prefix x) (PathMatch.exact y) = Ordering.lt
path_precedence a b (PathMatch.prefix x) (PathMatch.prefix y) =
    compare (byte_length (prefix_body x)) (byte_length (prefix_body y))
path_precedence a b (PathMatch.exact x) (PathMatch.exact y) = Ordering.eq

unfoldable pub gw_precedence : Frontend → Frontend → Ordering
gw_precedence a b = and_then (path_precedence a b a.path b.path) (
    and_then (compare_bool (is_some a.method) (is_some b.method))
      (compare (length a.header_matches) (length b.header_matches)))

abbrev pub is_gt : Ordering → Bool
is_gt Ordering.gt = true
is_gt Ordering.eq = false
is_gt Ordering.lt = false

unfoldable pub outranks : Frontend → Frontend → Bool
outranks u p = methods_meet u p && paths_meet u.path p.path && is_gt (gw_precedence u p)
