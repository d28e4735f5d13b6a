-- ===== src/Tests/Rules.antt =====
-- The rule and header properties at sample matches.
use sozu_gateway.Prelude.{◌≡◌, ◌↔◌, some, List, [], ◌∷◌}
use sozu_gateway.Prelude.Lists.{any}
use sozu_gateway.Prelude.Texts.{codes}
use sozu_gateway.Ir.{PathMatch, HeaderMatch, HeaderMatchKind}
use sozu_gateway.Ir.Rule.{sozu_rule}
use sozu_gateway.Ir.Rule.Decode.{read_rule, canonical, sozu_rule-eq_iff, read_rule-sozu_rule}
use sozu_gateway.Ir.Headers
use sozu_gateway.Ir.Headers.{lowered, header_eq}
use sozu_gateway.Ir.Headers.Canonical.{same_condition, canonical-eq_iff}

abbrev api : PathMatch
api = PathMatch.prefix (codes "/a.b/")

read_rule_example : read_rule (sozu_rule api) ≡ some (canonical api)
read_rule_example = read_rule-sozu_rule api tt

sozu_rule_example :
    (sozu_rule api ≡ sozu_rule (PathMatch.exact (codes "/a.b")))
    ↔ (canonical api ≡ canonical (PathMatch.exact (codes "/a.b")))
sozu_rule_example = sozu_rule-eq_iff api (PathMatch.exact (codes "/a.b")) tt tt

abbrev upper : List HeaderMatch
upper = record { name = codes "X-A"; kind = HeaderMatchKind.exact (codes "1") } ∷ []

abbrev twice : List HeaderMatch
twice =
    record { name = codes "x-a"; kind = HeaderMatchKind.exact (codes "1") }
    ∷ record { name = codes "x-A"; kind = HeaderMatchKind.exact (codes "1") }
    ∷ []

canonical_example :
    (Headers.canonical upper ≡ Headers.canonical twice)
    ↔ ((m : HeaderMatch) → any (same_condition m) upper ≡ any (same_condition m) twice)
canonical_example = canonical-eq_iff upper twice
