-- ===== src/Controller/Scope/Names.antt =====
-- The spelling of a Gateway (`GatewayId`, crates/controller/src/scope.rs).
use sozu_gateway.Prelude.{
  ℕ, ◌≡◌, ◌↔◌, refl, ap, sym, ◌∙◌, inl, inr, true, false, not, Option, none, some, [], ◌∷◌, ◌++◌,
  arith,
}
use sozu_gateway.Prelude.Tests.{if◌then◌else◌, Bool-cases, Option-cases}
use sozu_gateway.Prelude.Eq.{◌==◌, nat_eq, list_eq, ==-refl, eq_of-==, ==-comm}
use sozu_gateway.Prelude.Lists.{all}
use sozu_gateway.Prelude.Lists.Keys.{contains}
use sozu_gateway.Prelude.Results.{Result, ok, err}
use sozu_gateway.Prelude.Texts.{Text}
use sozu_gateway.Controller.Scope.{
  GatewayId, is_dns_char, dns_label, split_once, has_dns_names, from_str, to_string, ScopeError,
  not_a_pair, bad_names,
}

abbrev put : ℕ → Option (Text × Text) → Option (Text × Text)
put x none = none
put x (some (before, behind)) = some (x ∷ before, behind)

split_once-step :
    (c x : ℕ) (s : Text)
    → split_once c (x ∷ s) ≡ (if x == c then some ([], s) else put x (split_once c s))
unfolding split_once
split_once-step c x s = ground arith

split_once-append :
    (c : ℕ) (before behind : Text)
    → contains c before ≡ false
    → split_once c (before ++ c ∷ behind) ≡ some (before, behind)
split_once-append c [] behind h = split_once-step c c behind ∙ rw (==-refl c) refl
split_once-append c (x ∷ before) behind h =
    let other : (x == c) ≡ false = ground (arith, h, ==-comm x c) in
    split_once-step c x (before ++ c ∷ behind)
    ∙ rw other refl
    ∙ ap (put x) (split_once-append c before behind (ground (arith, h)))

put-some :
    (x : ℕ) (o : Option (Text × Text)) (a b : Text)
    → put x o ≡ some (a, b)
    → (before : Text) × (o ≡ some (before, b)) × (a ≡ x ∷ before)
put-some x none a b h = cc
put-some x (some (before, behind)) a b h =
    let same : behind ≡ b = cc in (before, ap (λ t. some (before, t)) same, cc)

append-split_once : (c : ℕ) (s a b : Text) → split_once c s ≡ some (a, b) → s ≡ a ++ c ∷ b
unfolding split_once
append-split_once c [] a b h = cc
append-split_once c (x ∷ s) a b h = elim (Bool-cases (x == c)) [
  | inl e ↦
      let is : ◌≡◌ {A = Option (Text × Text)} (some ([], s)) (some (a, b)) =
        ground (arith, h, e, split_once-step c x s) in
      let head : x ≡ c = eq_of-== x c e in
      let front : [] ≡ a = cc in
      let rest : s ≡ b = cc in
      ap (λ z. z ∷ s) head ∙ ap (λ t. c ∷ t) rest ∙ ap (λ t. t ++ c ∷ b) front
  | inr e ↦
      let (before, found, is) =
        put-some x (split_once c s) a b (ground (arith, h, e, split_once-step c x s)) in
      ap (λ t. x ∷ t) (append-split_once c s before b found) ∙ ap (λ t. t ++ c ∷ b) (sym is)
]

slash_not_dns : (x : ℕ) → is_dns_char x ≡ true → (b'/' == x) ≡ false
unfolding is_dns_char
slash_not_dns x h = elim (Bool-cases (b'/' == x)) [
  | inl e ↦ let is : b'/' ≡ x = eq_of-== b'/' x e in ground (arith, h, is)
  | inr e ↦ e
]

no_slash : (s : Text) → all is_dns_char s ≡ true → contains b'/' s ≡ false
no_slash [] h = refl
no_slash (x ∷ s) h =
    ground (arith, slash_not_dns x (ground (arith, h)), no_slash s (ground (arith, h)))

no_slash_in_names :
    (namespace name : Text) → has_dns_names namespace name ≡ true → contains b'/' namespace ≡ false
unfolding has_dns_names dns_label
no_slash_in_names namespace name h = no_slash namespace (ground (arith, h))

-- What `from_str` makes of the parts.
abbrev judged : Text → Option (Text × Text) → Result ScopeError GatewayId
judged value o = elim o [
  | none ↦ err (not_a_pair value)
  | some (namespace, name) ↦
      if not (has_dns_names namespace name)
      then err (bad_names value)
      else ok (record { namespace = namespace; name = name })
]

read_back :
    (id : GatewayId) → has_dns_names id.namespace id.name ≡ true → from_str (to_string id) ≡ ok id
unfolding from_str to_string
read_back id h =
    ap (judged (to_string id))
      (split_once-append b'/' id.namespace id.name (no_slash_in_names id.namespace id.name h))
    ∙ rw h refl

parsed :
    (value : Text) (id : GatewayId)
    → from_str value ≡ ok id
    → (value ≡ to_string id) × (has_dns_names id.namespace id.name ≡ true)
unfolding from_str to_string
parsed value id h = elim (Option-cases (split_once b'/' value)) [
  | inl n ↦ ground (arith, h, n)
  | inr ((namespace, name), n) ↦ elim (Bool-cases (has_dns_names namespace name)) [
    | inr f ↦
        let bad : judged value (some (namespace, name)) ≡ ok id = sym (ap (judged value) n) ∙ h in
        ground (arith, bad, f)
    | inl t ↦
        let good : judged value (some (namespace, name)) ≡ ok id = sym (ap (judged value) n) ∙ h in
        let ns : namespace ≡ id.namespace = ground (arith, good, t) in
        let nm : name ≡ id.name = ground (arith, good, t) in
        (
          append-split_once b'/' value namespace name n
              ∙ ap (λ a. a ++ b'/' ∷ name) ns
              ∙ ap (λ b. id.namespace ++ b'/' ∷ b) nm,
          sym (ap (λ a. has_dns_names a name) ns ∙ ap (has_dns_names id.namespace) nm) ∙ t,
        )
  ]
]

-- A Gateway's spelling reads back: a value is accepted as a Gateway exactly when it is the spelling
-- of that Gateway and both names are DNS names.
pub from_str-eq-ok_iff :
    (value : Text) (id : GatewayId)
    → (from_str value ≡ ok id)
      ↔ ((value ≡ to_string id) × (has_dns_names id.namespace id.name ≡ true))
from_str-eq-ok_iff value id = (parsed value id, λ (is, names). ap from_str is ∙ read_back id names)
