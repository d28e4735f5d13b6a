-- ===== src/Builder/Certificates.antt =====
-- The names and the merge of certificates, crates/builder/src/lib.rs: `arbitrate_certificate_names`
-- and `merge_certificates`.
pub mod Ownership
pub mod Merged
use sozu_gateway.Prelude.{
  ℕ, Bool, true, false, not, ◌&&◌, ◌||◌, Option, none, some, List, [], ◌∷◌, ◌++◌, map, ℕ_discrete,
}
use sozu_gateway.Prelude.Tests.{if◌then◌else◌}
use sozu_gateway.Prelude.Eq.{Eq, ◌==◌, nat_eq, list_eq, pair_eq}
use sozu_gateway.Prelude.Lists.{any, filter, filter_map, is_empty, length}
use sozu_gateway.Prelude.Lists.Upsert.{upsert_by}
use sozu_gateway.Prelude.Order.{
  Order, Reverse, nat_order, list_order, pair_order, reverse_order, lt,
}
use sozu_gateway.Prelude.Order.Sort.{sort_by}
use sozu_gateway.Prelude.Order.Sets.{to_set}
use sozu_gateway.Prelude.Texts.{Text, codes, to_ascii_lowercase}
use sozu_gateway.Ir.{Certificate, SocketAddr, address_eq, address_order}
use sozu_gateway.Builder.Routes.Collisions.{OwnerIdent, Claims, claim_for, claim_rank}

pub record FingerprintedCert : Type 0 where
  pub fingerprint : List ℕ
  pub cert : Certificate

-- An Ingress, or one listener of a Gateway.
pub data CertificateSource : Type 0 where
  ingress : Text → Text → CertificateSource
  gateway : Text → Text → Text → CertificateSource

unfoldable pub source_owner : CertificateSource → OwnerIdent
source_owner (ingress namespace name) = (0, (namespace, name))
source_owner (gateway namespace name listener) = (2, (namespace, name))

unfoldable pub source_listener : CertificateSource → Option Text
source_listener (ingress namespace name) = none
source_listener (gateway namespace name listener) = some listener

pub record ClaimedCert : Type 0 where
  pub cert : FingerprintedCert
  pub secret : Text
  pub source : CertificateSource

unfoldable pub owner_kind : OwnerIdent → Text
owner_kind (kind, object) =
    if kind == 0 then codes "Ingress" else if kind == 1 then codes "HTTPRoute" else codes "Gateway"

abbrev pub owner : ClaimedCert → OwnerIdent
owner c = source_owner c.source

-- The listener and the name, as Sōzu stores it.
abbrev pub NameKey : Type 0
NameKey = SocketAddr × Text

abbrev pub name_keys : ClaimedCert → List NameKey
name_keys c = map (λ n. (c.cert.cert.listener, to_ascii_lowercase n)) c.cert.cert.names

abbrev pub claims_name : NameKey → ClaimedCert → Bool
claims_name key c = any (λ k. k == key) (name_keys c)

module _ (claims : Claims) where
  -- The claim, and the object that breaks a tie.
  abbrev pub rank : ClaimedCert → (ℕ × (List Text × Text)) × OwnerIdent
  rank c = (claim_rank (claim_for (owner c) claims), owner c)

  unfoldable pub better : Option ClaimedCert → ClaimedCert → Option ClaimedCert
  better none c = some c
  better (some best) c = if lt (rank c) (rank best) then some c else some best

  -- The oldest claimant of a name: the entry of `winners`.
  unfoldable pub best_from : NameKey → Option ClaimedCert → List ClaimedCert → Option ClaimedCert
  unfolding better
  best_from key best [] = best
  best_from key best (c ∷ certs) =
      best_from key (if claims_name key c then better best c else best) certs

  unfoldable pub oldest_claimant : NameKey → List ClaimedCert → Option ClaimedCert
  unfolding best_from
  oldest_claimant key certs = best_from key none certs

  -- The oldest_claimant loaded this certificate for the name.
  unfoldable pub is_winning : NameKey → List ℕ → ClaimedCert → List ClaimedCert → Bool
  is_winning key fingerprint won certs =
      any
        (λ (d : ClaimedCert).
          claims_name key d && owner d == owner won && d.cert.fingerprint == fingerprint)
        certs

  abbrev pub key_of : ClaimedCert → Text → NameKey
  key_of c name = (c.cert.cert.listener, to_ascii_lowercase name)

  unfoldable pub keeps : List ClaimedCert → ClaimedCert → Text → Bool
  unfolding oldest_claimant is_winning
  keeps certs c name = elim (oldest_claimant (key_of c name) certs) [
    | none ↦ true
    | some won ↦ is_winning (key_of c name) c.cert.fingerprint won certs
  ]

  -- The certificates with the names that they keep.
  unfoldable pub kept_certificates : List ClaimedCert → List FingerprintedCert
  unfolding keeps
  kept_certificates certs =
      map
        (λ (c : ClaimedCert). record (c.cert) {
          cert = record (c.cert.cert) { names = filter (keeps certs c) c.cert.cert.names };
        })
        certs

  -- A name that a certificate lost: the name, the kind of its owner, and the owner.
  unfoldable pub lost_names : List ClaimedCert → ClaimedCert → List (Text × (Text × Text))
  unfolding keeps
  lost_names certs c =
      filter_map
        (λ (name : Text). elim (oldest_claimant (key_of c name) certs) [
          | none ↦ none
          | some won ↦
              if keeps certs c name
              then none
              else some (name, (owner_kind (owner won), (claim_for (owner won) claims).1.1))
        ])
        c.cert.cert.names

-- The material that is served for a leaf: the most links, then the smallest chain, key and text.
abbrev pub served_rank : Certificate → Reverse ℕ × (List Text × (Text × Text))
served_rank c = (record { value = length c.chain }, (c.chain, (c.key, c.certificate)))

unfoldable pub served_first : Certificate → Certificate → Bool
served_first candidate current = lt (served_rank candidate) (served_rank current)

-- An entry of the merge: its key, the material, and the names.
pub record MergedCert : Type 0 where
  pub listener : SocketAddr
  pub fingerprint : List ℕ
  pub served : Certificate
  pub names : List Text

abbrev pub merged_key : MergedCert → SocketAddr × List ℕ
merged_key m = (m.listener, m.fingerprint)

unfoldable pub join_cert : FingerprintedCert → MergedCert → MergedCert
join_cert c m = record m {
  served = if served_first c.cert m.served then c.cert else m.served;
  names = to_set (m.names ++ c.cert.names);
}

unfoldable pub merge_into : List FingerprintedCert → List MergedCert → List MergedCert
unfolding join_cert
merge_into [] merged = merged
merge_into (c ∷ certs) merged = merge_into certs (
    upsert_by merged_key (c.cert.listener, c.fingerprint) (join_cert c)
      (record {
        listener = c.cert.listener;
        fingerprint = c.fingerprint;
        served = c.cert;
        names = to_set c.cert.names;
      })
      merged)

unfoldable pub merge_certificates : List FingerprintedCert → List Certificate
unfolding merge_into
merge_certificates certs =
    map (λ (m : MergedCert). record (m.served) { names = m.names })
      (filter (λ (m : MergedCert). not (is_empty m.names))
        (sort_by merged_key (merge_into certs [])))
