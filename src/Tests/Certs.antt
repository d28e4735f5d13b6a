-- ===== src/Tests/Certs.antt =====
-- Two objects that claim one name, and the merge of their certificates.
use sozu_gateway.Prelude.{◌≡◌, refl, true, false, some, List, [], ◌∷◌, ℕ_discrete}
use sozu_gateway.Prelude.Eq.{pair_discrete, list_discrete}
use sozu_gateway.Prelude.Lists.{any}
use sozu_gateway.Prelude.Texts.{codes, to_ascii_lowercase}
use sozu_gateway.Ir.{SocketAddr_discrete, IpAddr_discrete}
use sozu_gateway.Builder.Routes.Collisions.{Claims}
use sozu_gateway.Builder.Certificates.{
  FingerprintedCert, ClaimedCert, ingress, claims_name, key_of, keeps, merge_certificates,
}
use sozu_gateway.Builder.Certificates.Ownership.{has_oldest_claim, keeps-has_oldest_claim}
use sozu_gateway.Builder.Certificates.Merged.{serves, serves-merge_certificates}
use sozu_gateway.Tests.Samples.{address, certificate}

abbrev leaf : FingerprintedCert
leaf = record { fingerprint = 1 ∷ []; cert = certificate 5 (codes "a" ∷ codes "b" ∷ []) }

abbrev other_leaf : FingerprintedCert
other_leaf = record { fingerprint = 2 ∷ []; cert = certificate 6 (codes "A" ∷ []) }

abbrev newer : ClaimedCert
newer = record { cert = leaf; secret = codes "s"; source = ingress (codes "ns") (codes "new") }

abbrev older : ClaimedCert
older = record {
  cert = other_leaf;
  secret = codes "t";
  source = ingress (codes "ns") (codes "old");
}

abbrev loaded : List ClaimedCert
loaded = newer ∷ older ∷ []

abbrev ages : Claims
ages =
    ((0, (codes "ns", codes "new")), (false, (some (codes "2025"), codes "ns/new")))
    ∷ ((0, (codes "ns", codes "old")), (false, (some (codes "2024"), codes "ns/old")))
    ∷ []

claimed : any (claims_name (key_of ages newer (codes "a"))) loaded ≡ true
unfolding to_ascii_lowercase pair_discrete list_discrete ℕ_discrete SocketAddr_discrete
    IpAddr_discrete
claimed = refl

keeps-has_oldest_claim_example :
    keeps ages loaded newer (codes "a") ≡ has_oldest_claim ages loaded newer (codes "a")
keeps-has_oldest_claim_example = keeps-has_oldest_claim ages loaded newer (codes "a") claimed

serves-merge_certificates_example :
    any (serves (address 443) (codes "b")) (merge_certificates (leaf ∷ other_leaf ∷ leaf ∷ []))
    ≡ any
        (λ (c : FingerprintedCert). serves (address 443) (codes "b") c.cert)
        (leaf ∷ other_leaf ∷ leaf ∷ [])
serves-merge_certificates_example =
    serves-merge_certificates (address 443) (codes "b") (leaf ∷ other_leaf ∷ leaf ∷ [])
