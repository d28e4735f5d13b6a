-- ===== src/Tests/Builds.antt =====
-- The builder's hostnames, paths and collisions at sample routes.
use sozu_gateway.Prelude.{◌≡◌, refl, true, false, ◌&&◌, none, some, List, [], ◌∷◌, ℕ_discrete}
use sozu_gateway.Prelude.Eq.{list_discrete}
use sozu_gateway.Prelude.Lists.{all, any}
use sozu_gateway.Prelude.Texts.{Text, codes, starts_with, strip_prefix, trim_end_matches}
use sozu_gateway.Ir.{PathMatch}
use sozu_gateway.Builder.Gateway.{effective_hostnames}
use sozu_gateway.Builder.Gateway.Intersection.{admits, allows, effective_hostnames-admits}
use sozu_gateway.Builder.Routes.{paths_meet, prefix_covers, prefix_body}
use sozu_gateway.Builder.Routes.Paths.{takes, paths_meet-of_target}
use sozu_gateway.Builder.Routes.Collisions.{
  SourcedFrontend, ingress, Claims, resolve_frontend_collisions,
}
use sozu_gateway.Builder.Routes.Collisions.Winners.{has_winner, resolve-has_winner}
use sozu_gateway.Tests.Samples.{frontend, show}

abbrev hostnames : List Text
hostnames = codes "*.example.com" ∷ codes "example.org" ∷ []

effective_hostnames-admits_example :
    any
      (λ p. admits p (codes "a.example.com"))
      (effective_hostnames (some hostnames) (some (codes "a.example.com")))
    ≡ any (λ p. admits p (codes "a.example.com")) hostnames
      && allows (some (codes "a.example.com")) (codes "a.example.com")
effective_hostnames-admits_example =
    effective_hostnames-admits hostnames (some (codes "a.example.com")) (codes "a.example.com")

abbrev target : Text
target = codes "/a/b?q"

taken_by_prefix : takes (λ r t. false) (PathMatch.prefix (codes "/a/")) target ≡ true
unfolding prefix_covers prefix_body strip_prefix trim_end_matches starts_with ℕ_discrete
taken_by_prefix = refl

taken_by_exact : takes (λ r t. false) (PathMatch.exact (codes "/a/b")) target ≡ true
unfolding strip_prefix starts_with ℕ_discrete list_discrete
taken_by_exact = refl

paths_meet-of_target_example :
    paths_meet (PathMatch.prefix (codes "/a/")) (PathMatch.exact (codes "/a/b")) ≡ true
paths_meet-of_target_example =
    paths_meet-of_target (λ r t. false) (PathMatch.prefix (codes "/a/"))
      (PathMatch.exact (codes "/a/b")) target taken_by_prefix taken_by_exact

-- Two Ingresses want one route; the second is older.
abbrev routes : List SourcedFrontend
routes =
    record { frontend = frontend 7 (some (1 ∷ [])); source = ingress (codes "ns") (codes "new") }
    ∷ record { frontend = frontend 7 (some (2 ∷ [])); source = ingress (codes "ns") (codes "old") }
    ∷ record { frontend = frontend 8 none; source = ingress (codes "ns") (codes "new") }
    ∷ []

abbrev claims : Claims
claims =
    ((0, (codes "ns", codes "new")), (false, (some (codes "2025"), codes "ns/new")))
    ∷ ((0, (codes "ns", codes "old")), (false, (some (codes "2024"), codes "ns/old")))
    ∷ []

resolve-has_winner_example :
    all (has_winner show claims (resolve_frontend_collisions show routes claims).kept) routes ≡ true
resolve-has_winner_example = resolve-has_winner show claims routes
