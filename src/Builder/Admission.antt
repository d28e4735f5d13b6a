-- ===== src/Builder/Admission.antt =====
-- The paths and the TLS hosts of an Ingress, crates/builder/src/lib.rs: `path_match`, `admit_path`,
-- `sozu_regex_refusal` and `tls_covers`. Compiling a pattern is a parameter: the text of its error, on
-- one line, where it fails.
use sozu_gateway.Prelude.{ℕ, Bool, true, Option, none, some, List, [], ◌∷◌, ◌++◌}
use sozu_gateway.Prelude.Tests.{if◌then◌else◌, leb}
use sozu_gateway.Prelude.Eq.{◌==◌, nat_eq, list_eq}
use sozu_gateway.Prelude.Lists.{any, is_empty, length, take}
use sozu_gateway.Prelude.Lists.Keys.{contains}
use sozu_gateway.Prelude.Results.{Result, ok, err}
use sozu_gateway.Prelude.Texts.{Text, codes, byte_length, trim_end_matches}
use sozu_gateway.Ir.{PathMatch, SozuPathRule}
use sozu_gateway.Ir.Rule.{sozu_rule}
use sozu_gateway.Builder.Gateway.{wildcard_covers}
use sozu_gateway.Builder.Routes.Collisions.{path_value}

-- A trailing slash is insignificant; the root stays `/`.
unfoldable pub canonical_prefix : Text → Text
canonical_prefix value =
    let trimmed = trim_end_matches b'/' value in if is_empty trimmed then codes "/" else trimmed

-- A path in a message: its head, and its length in bytes. `digits` spells a number.
unfoldable pub display_path : (ℕ → Text) → Text → Text
display_path digits path =
    if leb (length path) 64
    then path
    else take 64 path ++ codes "… (" ++ digits (byte_length path) ++ codes " bytes)"

-- `Problem::InvalidPathRegex`
pub record InvalidPathRegex : Type 0 where
  pub path : Text
  pub reason : Text

-- A pattern is compiled as it stands, then anchored.
unfoldable pub sozu_regex_refusal : (Text → Option Text) → Text → Option Text
sozu_regex_refusal compile_error pattern = elim (compile_error pattern) [
  | some e ↦ some e
  | none ↦ compile_error (codes "\\A(?:" ++ pattern ++ codes ")\\z")
]

unfoldable pub admit_path :
    (ℕ → Text) → (Text → Option Text) → PathMatch → Result InvalidPathRegex PathMatch
unfolding sozu_regex_refusal display_path
admit_path digits compile_error path = elim (sozu_rule path) [
  | SozuPathRule.prefix v ↦ ok path
  | SozuPathRule.regex pattern ↦ elim (sozu_regex_refusal compile_error pattern) [
    | none ↦ ok path
    | some reason ↦ err (record { path = display_path digits (path_value path); reason = reason })
  ]
]

abbrev pub path_or_root : Option Text → Text
path_or_root none = codes "/"
path_or_root (some []) = codes "/"
path_or_root (some (c ∷ p)) = c ∷ p

unfoldable pub path_match :
    (ℕ → Text) → (Text → Option Text) → Text → Option Text → Result InvalidPathRegex PathMatch
unfolding admit_path canonical_prefix
path_match digits compile_error path_type path =
    let value = path_or_root path in
    admit_path digits compile_error (
      if path_type == codes "Exact"
      then PathMatch.exact value
      else if path_type == codes "ImplementationSpecific"
      then PathMatch.regex value
      else PathMatch.prefix (canonical_prefix value))

unfoldable pub tls_covers : List Text → Text → Bool
tls_covers tls_hosts host =
    if contains host tls_hosts
    then true
    else any (λ pattern. wildcard_covers pattern host) tls_hosts
