-- ===== src/Ir/Headers.antt =====
-- `HeaderMatchKind::sozu_kind_and_value` and `HeaderMatch::canonical`, crates/ir/src/lib.rs: a
-- conjunction of header conditions in the form that Sōzu files it under.
pub mod Canonical
use sozu_gateway.Prelude.{ℕ, ◌≡◌, List, map, arith}
use sozu_gateway.Prelude.Eq.{Eq, list_eq, nat_eq}
use sozu_gateway.Prelude.Order.{Order, nat_order, list_order, pair_order, order_by}
use sozu_gateway.Prelude.Order.Sets.{to_set}
use sozu_gateway.Prelude.Texts.{Text, to_ascii_lowercase}
use sozu_gateway.Ir.{HeaderMatch, HeaderMatchKind, HeaderMatch_discrete}

-- Sōzu's number of the kind, and the value.
unfoldable pub sozu_kind_and_value : HeaderMatchKind → ℕ × Text
sozu_kind_and_value (HeaderMatchKind.exact value) = (0, value)
sozu_kind_and_value (HeaderMatchKind.regex value) = (1, value)

kind_injective : (k l : HeaderMatchKind) → sozu_kind_and_value k ≡ sozu_kind_and_value l → k ≡ l
unfolding sozu_kind_and_value
kind_injective (HeaderMatchKind.exact v) (HeaderMatchKind.exact w) e = ground arith
kind_injective (HeaderMatchKind.exact v) (HeaderMatchKind.regex w) e = ground arith
kind_injective (HeaderMatchKind.regex v) (HeaderMatchKind.exact w) e = ground arith
kind_injective (HeaderMatchKind.regex v) (HeaderMatchKind.regex w) e = ground arith

-- The derived `Ord`: by name, then by kind and value.
abbrev pub header_key : HeaderMatch → Text × (ℕ × Text)
header_key m = (m.name, sozu_kind_and_value m.kind)

pub header_key_injective : (a b : HeaderMatch) → header_key a ≡ header_key b → a ≡ b
header_key_injective a b e = ground (arith, kind_injective a.kind b.kind)

instance abbrev pub header_order : Order HeaderMatch
header_order = order_by header_key header_key_injective

instance abbrev pub header_eq : Eq HeaderMatch
header_eq = record { dec = HeaderMatch_discrete }

-- One condition with its name in lower case.
abbrev pub lowered : HeaderMatch → HeaderMatch
lowered m = record { name = to_ascii_lowercase m.name; kind = m.kind }

-- Names in lower case, sorted by (name, kind, value), duplicates dropped.
unfoldable pub canonical : List HeaderMatch → List HeaderMatch
canonical matches = to_set (map lowered matches)
