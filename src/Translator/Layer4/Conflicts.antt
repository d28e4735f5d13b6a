-- ===== src/Translator/Layer4/Conflicts.antt =====
-- `check_l4_conflicts`, crates/translator/src/lib.rs, over exact-deduplicated frontends.
use sozu_gateway.Prelude.{
  ◌≡◌, refl, sym, ap, ◌∙◌, ◌↔◌, Bool, true, false, none, some, List, [], ◌∷◌, map, arith,
}
use sozu_gateway.Prelude.Eq.{==-comm, list_eq, nat_eq, pair_eq}
use sozu_gateway.Prelude.Results.{Result, ok, err}
use sozu_gateway.Prelude.Lists.Keys.{
  contains, distinct, lookup, unique_by, contains-unique_by, distinct-unique_from,
}
use sozu_gateway.Prelude.Lists.Claims.{
  IsUnambiguous, keys, IsUnambiguous-of-distinct, distinct_of-unambiguous,
}
use sozu_gateway.Prelude.Texts.{Text}
use sozu_gateway.Ir.{L4Frontend, protocol_eq, address_eq}
use sozu_gateway.Translator.Errors.{TranslatorError, l4_conflict}
use sozu_gateway.Translator.Layer4.{L4Key, l4_key, l4_claim, unique_l4_frontends}

-- The loop, with the claims met so far.
unfoldable pub check_from :
    List (L4Key × Text) → List L4Frontend → Result TranslatorError (Unit {0})
check_from claims [] = ok tt
check_from claims (f ∷ fs) =
    let rest = check_from (l4_claim f ∷ claims) fs in
    elim (lookup (l4_key f) claims) [
      | some other ↦ err (l4_conflict (l4_key f) other f.cluster_id)
      | none ↦ rest
    ]

unfoldable pub check_l4_conflicts : List L4Frontend → Result TranslatorError (Unit {0})
unfolding check_from
check_l4_conflicts = check_from []

-- No frontend's key is among the claims.
abbrev fresh : List (L4Key × Text) → List L4Frontend → Bool
fresh claims [] = true
fresh claims (f ∷ fs) = elim (lookup (l4_key f) claims) [
  | some other ↦ false
  | none ↦ fresh claims fs
]

fresh-cons :
    (c : L4Key × Text) (claims : List (L4Key × Text)) (fs : List L4Frontend)
    → fresh claims fs ≡ true
    → contains c.0 (map l4_key fs) ≡ false
    → fresh (c ∷ claims) fs ≡ true
fresh-cons c claims [] h n = refl
fresh-cons c claims (f ∷ fs) h n = ground (arith, fresh-cons c claims fs, ==-comm (l4_key f) c.0)

check_from_ok :
    (claims : List (L4Key × Text)) (fs : List L4Frontend)
    → fresh claims fs ≡ true
    → distinct (map l4_key fs) ≡ true
    → check_from claims fs ≡ ok tt
unfolding check_from
check_from_ok claims [] h d = refl
check_from_ok claims (f ∷ fs) h d =
    ground (arith, check_from_ok (l4_claim f ∷ claims) fs, fresh-cons (l4_claim f) claims fs)

fresh_of-cons :
    (c : L4Key × Text) (claims : List (L4Key × Text)) (fs : List L4Frontend)
    → fresh (c ∷ claims) fs ≡ true
    → (fresh claims fs ≡ true) × (contains c.0 (map l4_key fs) ≡ false)
fresh_of-cons c claims [] h = (refl, refl)
fresh_of-cons c claims (f ∷ fs) h =
    ground (arith, fresh_of-cons c claims fs, ==-comm (l4_key f) c.0)

distinct_of-check_from :
    (claims : List (L4Key × Text)) (fs : List L4Frontend)
    → check_from claims fs ≡ ok tt
    → (fresh claims fs ≡ true) × (distinct (map l4_key fs) ≡ true)
unfolding check_from
distinct_of-check_from claims [] h = (refl, refl)
distinct_of-check_from claims (f ∷ fs) h =
    ground
      (arith, distinct_of-check_from (l4_claim f ∷ claims) fs, fresh_of-cons (l4_claim f) claims fs)

fresh-nil : (fs : List L4Frontend) → fresh [] fs ≡ true
fresh-nil [] = refl
fresh-nil (f ∷ fs) = fresh-nil fs

keys-map : (fs : List L4Frontend) → keys (map l4_claim fs) ≡ map l4_key fs
keys-map [] = refl
keys-map (f ∷ fs) = ap (◌∷◌ (l4_key f)) (keys-map fs)

IsUnambiguous-of_unique :
    (l4 : List L4Frontend)
    → IsUnambiguous (map l4_claim (unique_by l4_claim l4))
    → IsUnambiguous (map l4_claim l4)
IsUnambiguous-of_unique l4 h k v w p q =
    h k v w (contains-unique_by l4_claim (k, v) l4 ∙ p) (contains-unique_by l4_claim (k, w) l4 ∙ q)

unique-IsUnambiguous :
    (l4 : List L4Frontend)
    → IsUnambiguous (map l4_claim l4)
    → IsUnambiguous (map l4_claim (unique_by l4_claim l4))
unique-IsUnambiguous l4 h k v w p q =
    h k v w (sym (contains-unique_by l4_claim (k, v) l4) ∙ p)
      (sym (contains-unique_by l4_claim (k, w) l4) ∙ q)

-- The check of the deduplicated frontends passes exactly when no address of a protocol is claimed
-- for two different clusters.
pub check_l4_conflicts-eq-ok_iff :
    (l4 : List L4Frontend)
    → (check_l4_conflicts (unique_l4_frontends l4) ≡ ok tt) ↔ IsUnambiguous (map l4_claim l4)
unfolding check_l4_conflicts unique_l4_frontends
check_l4_conflicts-eq-ok_iff l4 = (
  λ h. IsUnambiguous-of_unique l4 (
      IsUnambiguous-of-distinct _
        (rw (keys-map (unique_by l4_claim l4)) (distinct_of-check_from [] _ h).1)),
  λ h. check_from_ok [] _ (fresh-nil (unique_by l4_claim l4)) (
      rw (← keys-map (unique_by l4_claim l4)) (
        distinct_of-unambiguous _ (distinct-unique_from l4_claim [] l4)
          (unique-IsUnambiguous l4 h))),
)
