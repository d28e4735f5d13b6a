-- ===== src/Translator/Certificates/Diff.antt =====
-- `certificate_requests`, crates/translator/src/lib.rs: the requests that take Sōzu from the
-- previous certificates to the desired ones, each with its rank.
pub mod Idempotent
pub mod Public
use sozu_gateway.Prelude.{
  ℕ, Bool, true, false, not, ◌&&◌, ◌||◌, Option, none, some, List, [], ◌∷◌, ◌++◌, map,
}
use sozu_gateway.Prelude.Tests.{if◌then◌else◌}
use sozu_gateway.Prelude.Eq.{Eq, ◌==◌, list_eq, nat_eq, pair_eq}
use sozu_gateway.Prelude.Results.{Result, ok, err, ◌>>=◌}
use sozu_gateway.Prelude.Lists.{filter, filter_map, find, is_empty}
use sozu_gateway.Prelude.Lists.Keys.{contains}
use sozu_gateway.Prelude.Order.{Order, nat_order, list_order, pair_order}
use sozu_gateway.Prelude.Order.Sets.{to_set}
use sozu_gateway.Prelude.Texts.{Text, to_ascii_lowercase}
use sozu_gateway.Ir.{Certificate, address_eq, address_order}
use sozu_gateway.Wire.{Request}
use sozu_gateway.Translator.Errors.{TranslatorError}
use sozu_gateway.Translator.Payloads.{
  add_certificate_request, remove_certificate_request, replace_certificate_request,
}
use sozu_gateway.Translator.Tiers.{CertRank, gains, trades, withdraws}
use sozu_gateway.Translator.Certificates.{Pem, KeyedCert, cert_key, names_set, keyed_certs}
use sozu_gateway.Translator.Certificates.Transfer.{SniKey, Trade, transfer_order}

unfoldable pub sni_keys : Certificate → List SniKey
sni_keys c = to_set (map (λ n. (c.listener, to_ascii_lowercase n)) c.names)

-- `a.difference(&b)`
abbrev pub difference : List SniKey → List SniKey → List SniKey
difference a b = filter (λ k. not (contains k b)) a

-- What a desired certificate needs.
pub data Change : Type 0 where
  unchanged : Change
  in_place : CertRank → Request → Change
  trade : Trade → Change
  added : KeyedCert → Change

unfoldable pub classify_update : Request → List SniKey → List SniKey → Change
classify_update request gives takes =
    if is_empty takes
    then in_place gains request
    else if is_empty gives
    then in_place withdraws request
    else trade (record { request = request; gives = gives; takes = takes })

-- A certificate that Sōzu holds: the request carries a change of names or chain.
unfoldable pub update : KeyedCert → KeyedCert → Change
unfolding classify_update
update p d =
    if not (names_set p.cert == names_set d.cert) || not (p.chain == d.chain)
    then classify_update (replace_certificate_request d.cert d.fingerprint)
        (difference (sni_keys d.cert) (sni_keys p.cert))
        (difference (sni_keys p.cert) (sni_keys d.cert))
    else unchanged

unfoldable pub change : List KeyedCert → KeyedCert → Change
unfolding update
change prev d = elim (find (λ p. cert_key d == cert_key p) prev) [
  | none ↦ added d
  | some p ↦ update p d
]

abbrev pub in_place_of : Change → Option (CertRank × Request)
in_place_of (in_place rank request) = some (rank, request)
in_place_of _ = none

abbrev pub trade_of : Change → Option Trade
trade_of (trade t) = some t
trade_of _ = none

abbrev pub added_of : Change → Option KeyedCert
added_of (added k) = some k
added_of _ = none

-- The trades at their positions in the transfer order.
unfoldable pub ranked_trades : List Trade → List ℕ → List (CertRank × Request)
ranked_trades [] positions = []
ranked_trades (t ∷ ts) [] = []
ranked_trades (t ∷ ts) (p ∷ ps) = (trades p, t.request) ∷ ranked_trades ts ps

-- A removed certificate that `new` takes over from: one on its listener with its names.
unfoldable pub rotates : KeyedCert → KeyedCert → Bool
rotates new old = old.listener == new.listener && names_set old.cert == names_set new.cert

-- The first such certificate, and the others.
unfoldable pub take_rotated : KeyedCert → List KeyedCert → Option (KeyedCert × List KeyedCert)
unfolding rotates
take_rotated new [] = none
take_rotated new (old ∷ removed) =
    let later : Option (KeyedCert × List KeyedCert) = elim (take_rotated new removed) [
      | none ↦ none
      | some (found, left) ↦ some (found, old ∷ left)
    ] in
    if rotates new old then some (old, removed) else later

-- An added certificate rotates a removed one, or is added; what is left over is removed.
unfoldable pub settle_added : List KeyedCert → List KeyedCert → List (CertRank × Request)
unfolding take_rotated
settle_added [] removed =
    map (λ (old : KeyedCert). (withdraws, remove_certificate_request old.listener old.fingerprint))
      removed
settle_added (new ∷ more) removed =
    let alone = settle_added more removed in
    elim (take_rotated new removed) [
      | none ↦ (gains, add_certificate_request new.cert) ∷ alone
      | some (old, left) ↦
          (gains, replace_certificate_request new.cert old.fingerprint) ∷ settle_added more left
    ]

unfoldable pub removed_certs : List KeyedCert → List KeyedCert → List KeyedCert
removed_certs prev des = filter (λ p. not (contains (cert_key p) (map cert_key des))) prev

-- The diff of two keyed lists.
unfoldable pub diff_certs :
    (Request → Text) → List KeyedCert → List KeyedCert → List (CertRank × Request)
diff_certs json prev des =
    let changes : List Change = map (change prev) des in
    let moving : List Trade = filter_map trade_of changes in
    filter_map in_place_of changes
    ++ ranked_trades moving (transfer_order json moving)
    ++ settle_added (filter_map added_of changes) (removed_certs prev des)

unfoldable pub certificate_requests :
    (Request → Text)
    → Pem
    → List Certificate
    → List Certificate
    → Result TranslatorError (List (CertRank × Request))
certificate_requests json pem previous desired = do
  prev ← keyed_certs pem previous
  des ← keyed_certs pem desired
  ok (diff_certs json prev des)
