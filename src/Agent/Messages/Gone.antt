-- ===== src/Agent/Messages/Gone.antt =====
-- The refusals that settle a teardown (`is_already_gone`, crates/sozu-agent/src/lib.rs).
use sozu_gateway.Prelude.{
  ◌≡◌, refl, ap, ◌∙◌, Bool, true, false, not, ◌&&◌, ◌||◌, none, some, List, [], ◌∷◌, inl, inr,
  arith,
}
use sozu_gateway.Prelude.Tests.{if◌then◌else◌, Bool-cases}
use sozu_gateway.Prelude.Eq.{◌==◌, nat_eq, list_eq}
use sozu_gateway.Prelude.Lists.{all, any}
use sozu_gateway.Prelude.Texts.{Text, codes, to_ascii_lowercase}
use sozu_gateway.Wire.{Request}
use sozu_gateway.Agent.Messages.{
  is_teardown, worker_segments, kind_specific, says_gone, benign, is_already_gone,
}

-- The segment of a worker that removed the object.
abbrev pub says_ok : Text → Bool
says_ok segment = to_ascii_lowercase segment == codes "ok"

-- The segment of a worker that had no such object.
abbrev pub lost : List Text → Text → Bool
lost needles segment = not (says_ok segment) && says_gone needles (to_ascii_lowercase segment)

-- A segment that does no harm.
abbrev pub harmless : List Text → Text → Bool
harmless needles segment = says_ok segment || says_gone needles (to_ascii_lowercase segment)

abbrev pub kind_needles : Request → List Text
kind_needles r = elim r.request_type [ none ↦ [] | some kind ↦ kind_specific kind ]

benign_step :
    (needles : List Text) (saw ok gone : Bool) (segment : Text) (rest : List Text)
    → says_ok segment ≡ ok
    → says_gone needles (to_ascii_lowercase segment) ≡ gone
    → benign needles saw (segment ∷ rest) ≡ (
        if ok
        then benign needles saw rest
        else if gone
        then benign needles (saw || gone) rest
        else (false, saw || gone))
unfolding benign
benign_step needles saw ok gone segment rest h k = rw h (rw k refl)

abbrev both : Bool × Bool → Bool
both (a, b) = a && b

both-benign :
    (needles : List Text) (saw : Bool) (segments : List Text)
    → both (benign needles saw segments)
      ≡ all (harmless needles) segments && (saw || any (lost needles) segments)
unfolding benign
both-benign needles saw [] = ground arith
both-benign needles saw (segment ∷ rest) = elim (Bool-cases (says_ok segment)) [
  | inl o ↦ elim (Bool-cases (says_gone needles (to_ascii_lowercase segment))) [
    | inl g ↦
        ap both (benign_step needles saw true true segment rest o g)
        ∙ both-benign needles saw rest
        ∙ ground (arith, o, g)
    | inr g ↦
        ap both (benign_step needles saw true false segment rest o g)
        ∙ both-benign needles saw rest
        ∙ ground (arith, o, g)
  ]
  | inr o ↦ elim (Bool-cases (says_gone needles (to_ascii_lowercase segment))) [
    | inl g ↦
        ap both (benign_step needles saw false true segment rest o g)
        ∙ both-benign needles (saw || true) rest
        ∙ ground (arith, o, g)
    | inr g ↦ ap both (benign_step needles saw false false segment rest o g) ∙ ground (arith, o, g)
  ]
]

-- A refusal settles a teardown when every worker removed the object or had no such object, and one
-- had none. A request that tears nothing down is never settled this way.
pub is_already_gone-segments :
    (r : Request) (message : Text)
    → is_already_gone r message
      ≡ is_teardown r
        && (all (harmless (kind_needles r)) (worker_segments message)
            && any (lost (kind_needles r)) (worker_segments message))
unfolding is_already_gone
is_already_gone-segments r message = elim (Bool-cases (is_teardown r)) [
  | inl t ↦ rw t (both-benign (kind_needles r) false (worker_segments message))
  | inr t ↦ rw t refl
]
