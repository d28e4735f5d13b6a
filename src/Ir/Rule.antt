-- ===== src/Ir/Rule.antt =====
-- `PathMatch::sozu_rule` and `regex_escape`, crates/ir/src/lib.rs: the path rule that a path match
-- compiles to, as text.
pub mod Decode
use sozu_gateway.Prelude.{ℕ, ℕ_discrete, Bool, [], ◌∷◌, ◌++◌}
use sozu_gateway.Prelude.Tests.{if◌then◌else◌}
use sozu_gateway.Prelude.Eq.{◌==◌, nat_eq}
use sozu_gateway.Prelude.Lists.{is_empty}
use sozu_gateway.Prelude.Lists.Keys.{contains}
use sozu_gateway.Prelude.Texts.{Text, codes, trim_end_matches}
use sozu_gateway.Ir.{PathMatch, SozuPathRule}

abbrev pub remainder : Text
remainder = codes "(?-u:.*)"

unfoldable pub is_meta : ℕ → Bool
unfolding ℕ_discrete
is_meta c = contains c (codes "\\.+*?()|[]{}^$")

unfoldable pub regex_escape : Text → Text
regex_escape [] = []
regex_escape (c ∷ s) = let rest = regex_escape s in if is_meta c then b'\\' ∷ c ∷ rest else c ∷ rest

abbrev pub exact_tail : Text
exact_tail = codes "(?:\\?" ++ remainder ++ codes ")?$"

abbrev pub prefix_tail : Text
prefix_tail = codes "(?:[/?]" ++ remainder ++ codes ")?$"

unfoldable pub sozu_rule : PathMatch → SozuPathRule
sozu_rule (PathMatch.regex v) = SozuPathRule.regex v
sozu_rule (PathMatch.exact v) = SozuPathRule.regex (b'^' ∷ regex_escape v ++ exact_tail)
sozu_rule (PathMatch.prefix v) =
    let trimmed = trim_end_matches b'/' v in
    if is_empty trimmed
    then SozuPathRule.prefix (codes "/")
    else SozuPathRule.regex (b'^' ∷ regex_escape trimmed ++ prefix_tail)
