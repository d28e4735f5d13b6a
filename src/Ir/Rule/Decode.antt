-- ===== src/Ir/Rule/Decode.antt =====
-- What a compiled rule says of the path match it came from (`sozu_rule`, crates/ir/src/lib.rs):
-- the escaped literal is read back, and the boundary after it tells `Exact` from `Prefix`.
use sozu_gateway.Prelude.{
  ◌≡◌, refl, ap, ◌↔◌, Bool, true, false, Option, none, some, [], ◌∷◌, ◌++◌, arith, ℕ_discrete,
}
use sozu_gateway.Prelude.Tests.{if◌then◌else◌}
use sozu_gateway.Prelude.Eq.{◌==◌, nat_eq, list_eq, list_discrete, ==-refl}
use sozu_gateway.Prelude.Lists.{is_empty}
use sozu_gateway.Prelude.Texts.{Text, codes, trim_end_matches}
use sozu_gateway.Ir.{PathMatch, SozuPathRule}
use sozu_gateway.Ir.Rule.{is_meta, regex_escape, exact_tail, prefix_tail, sozu_rule}

-- Reads an escaped literal up to the first metacharacter that is not escaped: the literal, and
-- what is left. The flag says that the character before was a backslash.
unfoldable pub decode : Bool → Text → Text × Text
decode escaped [] = ([], [])
decode true (c ∷ s) = let (literal, rest) = decode false s in (c ∷ literal, rest)
decode false (c ∷ s) =
    let escape = decode true s in
    let (literal, rest) = decode false s in
    if c == b'\\' then escape else if is_meta c then ([], c ∷ s) else (c ∷ literal, rest)

backslash-is_meta : is_meta b'\\' ≡ true
unfolding is_meta
backslash-is_meta = refl

paren-is_meta : is_meta b'(' ≡ true
unfolding is_meta
paren-is_meta = refl

-- The literal is read back whatever characters it holds.
pub decode-regex_escape : (s t : Text) → decode false (regex_escape s ++ b'(' ∷ t) ≡ (s, b'(' ∷ t)
unfolding decode regex_escape
decode-regex_escape [] t = ground (arith, paren-is_meta)
decode-regex_escape (c ∷ s) t = ground (arith, decode-regex_escape s t, backslash-is_meta)

-- The path match that a compiled literal rule stands for: the boundary after the literal tells
-- an exact path from a prefix, and a plain prefix rule is the root.
unfoldable pub read_rule : SozuPathRule → Option PathMatch
read_rule (SozuPathRule.prefix v) = some (PathMatch.prefix [])
read_rule (SozuPathRule.regex []) = none
read_rule (SozuPathRule.regex (c ∷ s)) =
    let (literal, rest) = decode false s in
    if rest == exact_tail
    then some (PathMatch.exact literal)
    else if rest == prefix_tail
    then some (PathMatch.prefix literal)
    else none

-- A prefix without its trailing slashes; any other match as it is.
unfoldable pub canonical : PathMatch → PathMatch
canonical (PathMatch.prefix v) = PathMatch.prefix (trim_end_matches b'/' v)
canonical (PathMatch.exact v) = PathMatch.exact v
canonical (PathMatch.regex v) = PathMatch.regex v

abbrev pub IsLiteral : PathMatch → Type 0
IsLiteral (PathMatch.regex v) = ⊥
IsLiteral _ = Unit

tails_differ : (prefix_tail == exact_tail) ≡ false
unfolding list_discrete ℕ_discrete
tails_differ = refl

read_rule-exact :
    (v : Text)
    → read_rule (SozuPathRule.regex (b'^' ∷ regex_escape v ++ exact_tail))
      ≡ some (PathMatch.exact v)
unfolding read_rule
read_rule-exact v = rw (decode-regex_escape v _) (rw (==-refl exact_tail))

read_rule-prefix :
    (v : Text)
    → read_rule (SozuPathRule.regex (b'^' ∷ regex_escape v ++ prefix_tail))
      ≡ some (PathMatch.prefix v)
unfolding read_rule
read_rule-prefix v = rw (decode-regex_escape v _) (rw (tails_differ, ==-refl prefix_tail))

-- A literal match is read back from its rule, up to trailing slashes of a prefix.
pub read_rule-sozu_rule :
    (p : PathMatch) → IsLiteral p → read_rule (sozu_rule p) ≡ some (canonical p)
unfolding sozu_rule canonical read_rule
read_rule-sozu_rule (PathMatch.exact v) h = read_rule-exact v
read_rule-sozu_rule (PathMatch.prefix v) h = root_or_not (trim_end_matches b'/' v)
  where
    root_or_not :
        (trimmed : Text)
        → read_rule (
            if is_empty trimmed
            then SozuPathRule.prefix (codes "/")
            else SozuPathRule.regex (b'^' ∷ regex_escape trimmed ++ prefix_tail))
          ≡ some (PathMatch.prefix trimmed)
    root_or_not [] = refl
    root_or_not (c ∷ s) = read_rule-prefix (c ∷ s)
read_rule-sozu_rule (PathMatch.regex v) h = elim h [ ]

sozu_rule_of_canonical :
    (p q : PathMatch)
    → IsLiteral p
    → IsLiteral q
    → canonical p ≡ canonical q
    → sozu_rule p ≡ sozu_rule q
unfolding sozu_rule canonical
sozu_rule_of_canonical (PathMatch.exact v) q hp hq e = ground arith
sozu_rule_of_canonical (PathMatch.prefix v) q hp hq e = ground arith
sozu_rule_of_canonical (PathMatch.regex v) q hp hq e = elim hp [ ]

-- Two literal matches compile to one rule exactly when they differ at most in the trailing
-- slashes of a prefix.
pub sozu_rule-eq_iff :
    (p q : PathMatch)
    → IsLiteral p
    → IsLiteral q
    → (sozu_rule p ≡ sozu_rule q) ↔ (canonical p ≡ canonical q)
sozu_rule-eq_iff p q hp hq = (
  λ e. cc (ap read_rule e, read_rule-sozu_rule p hp, read_rule-sozu_rule q hq),
  sozu_rule_of_canonical p q hp hq,
)
