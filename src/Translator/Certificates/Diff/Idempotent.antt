-- ===== src/Translator/Certificates/Diff/Idempotent.antt =====
-- The same certificates need no request (`certificate_requests`, crates/translator/src/lib.rs).
use sozu_gateway.Prelude.{◌≡◌, refl, true, Option, none, some, List, [], ◌∷◌, map}
use sozu_gateway.Prelude.Eq.{◌==◌, list_eq, nat_eq, pair_eq, ==-refl}
use sozu_gateway.Prelude.Results.{ok}
use sozu_gateway.Prelude.Lists.{All, filter_map, find, filter-not}
use sozu_gateway.Prelude.Lists.Keys.{contains, distinct}
use sozu_gateway.Prelude.Lists.Upsert.{find_self, all_contained}
use sozu_gateway.Prelude.Texts.{Text}
use sozu_gateway.Ir.{Certificate, address_eq}
use sozu_gateway.Wire.{Request}
use sozu_gateway.Translator.Certificates.{Pem, KeyedCert, cert_key, names_set, keyed_certs}
use sozu_gateway.Translator.Certificates.Keys.{keyed_certs-distinct}
use sozu_gateway.Translator.Certificates.Diff.{
  Change, unchanged, change, update, in_place_of, trade_of, added_of, ranked_trades, settle_added,
  removed_certs, diff_certs, certificate_requests,
}

update_self : (d : KeyedCert) → update d d ≡ unchanged
unfolding update
update_self d = rw (==-refl (names_set d.cert), ==-refl d.chain)

change_self :
    (prev ks : List KeyedCert)
    → All (λ d. find (λ p. cert_key d == cert_key p) prev ≡ some d) ks
    → All (λ d. change prev d ≡ unchanged) ks
unfolding change
change_self prev [] h = tt
change_self prev (d ∷ ks) (e, h) = (rw (e, change) (update_self d), change_self prev ks h)

module _ {A : Type 0} (part : Change → Option A) (silent : part unchanged ≡ none) where
  nothing :
      (prev ks : List KeyedCert)
      → All (λ d. change prev d ≡ unchanged) ks
      → filter_map part (map (change prev) ks) ≡ []
  nothing prev [] h = refl
  nothing prev (d ∷ ks) (e, h) = rw (e, silent) (nothing prev ks h)

diff_certs_self :
    (json : Request → Text) (ks : List KeyedCert)
    → distinct (map cert_key ks) ≡ true
    → diff_certs json ks ks ≡ []
unfolding diff_certs removed_certs ranked_trades settle_added
diff_certs_self json ks d =
    let still = change_self ks ks (find_self cert_key ks d) in
    rw (
      nothing in_place_of refl ks ks still,
      nothing trade_of refl ks ks still,
      nothing added_of refl ks ks still,
      filter-not (λ p. contains (cert_key p) (map cert_key ks)) ks (all_contained cert_key ks),
    )

-- From a list of certificates to itself there is nothing to send, whenever each of them can be
-- read.
pub certificate_requests_self :
    (json : Request → Text) (pem : Pem) (certs : List Certificate) (ks : List KeyedCert)
    → keyed_certs pem certs ≡ ok ks
    → certificate_requests json pem certs certs ≡ ok []
unfolding certificate_requests
certificate_requests_self json pem certs ks e =
    rw (e, diff_certs_self json ks (keyed_certs-distinct pem certs ks e))
