-- ===== src/Translator/Certificates/Keys.antt =====
-- What grouping certificates by (listener, fingerprint) gives (`keyed_certs`,
-- crates/translator/src/lib.rs).
use sozu_gateway.Prelude.{
  ◌≡◌, refl, sym, ap, ◌∙◌, Bool, true, false, ◌&&◌, ◌||◌, List, [], ◌∷◌, ◌++◌, map, arith,
}
use sozu_gateway.Prelude.Eq.{◌==◌, ==-comm, list_eq, nat_eq, pair_eq}
use sozu_gateway.Prelude.Results.{Result, ok, err, >>=-eq-ok, try_fold}
use sozu_gateway.Prelude.Lists.{any}
use sozu_gateway.Prelude.Lists.Keys.{contains, distinct, contains-append}
use sozu_gateway.Prelude.Lists.Upsert.{distinct-upsert_by, contains-upsert_by, any-upsert_by}
use sozu_gateway.Prelude.Order.Sets.{contains-to_set}
use sozu_gateway.Prelude.Order.{nat_order, list_order}
use sozu_gateway.Prelude.Texts.{Text}
use sozu_gateway.Ir.{Certificate, SocketAddr, address_eq}
use sozu_gateway.Translator.Errors.{TranslatorError}
use sozu_gateway.Translator.Certificates.{
  Bytes, Pem, KeyedCert, cert_key, merge, insert_cert, fingerprint_of, served_chain, key_cert,
  keyed_certs,
}

cert_key-merge :
    (k : KeyedCert) (c : Certificate) (chain : List Bytes) → cert_key (merge k c chain) ≡ cert_key k
unfolding merge
cert_key-merge k c chain = ground arith

distinct-insert_cert :
    (c : Certificate) (fp : Text) (chain : List Bytes) (out : List KeyedCert)
    → distinct (map cert_key out) ≡ true
    → distinct (map cert_key (insert_cert c fp chain out)) ≡ true
unfolding insert_cert
distinct-insert_cert c fp chain out =
    distinct-upsert_by cert_key (c.listener, fp) (λ k. merge k c chain) _
      (λ k. cert_key-merge k c chain) refl out

ok_injective :
    {a b : List KeyedCert} → ◌≡◌ {A = Result TranslatorError (List KeyedCert)} (ok a) (ok b) → a ≡ b
ok_injective e = cc

or_false : (b : Bool) → (b || false) ≡ b
or_false b = ground arith

module _ (pem : Pem) where
  key_cert-distinct :
      (out ks : List KeyedCert) (c : Certificate)
      → distinct (map cert_key out) ≡ true
      → key_cert pem out c ≡ ok ks
      → distinct (map cert_key ks) ≡ true
  unfolding key_cert
  key_cert-distinct out ks c h e =
      let (fp, found, rest) = >>=-eq-ok (fingerprint_of pem c) _ e in
      let (chain, decoded, last) = >>=-eq-ok (served_chain pem c) _ rest in
      ok_distinct (insert_cert c fp chain out) (distinct-insert_cert c fp chain out h) last
    where
      ok_distinct :
          (built : List KeyedCert)
          → distinct (map cert_key built) ≡ true
          → ◌≡◌ {A = Result TranslatorError (List KeyedCert)} (ok built) (ok ks)
          → distinct (map cert_key ks) ≡ true
      ok_distinct built d p = let e : built ≡ ks = cc in rw (← e) d

  try_fold-distinct :
      (out ks : List KeyedCert) (certs : List Certificate)
      → distinct (map cert_key out) ≡ true
      → try_fold (key_cert pem) out certs ≡ ok ks
      → distinct (map cert_key ks) ≡ true
  try_fold-distinct out ks [] h e = ground (arith, h)
  try_fold-distinct out ks (c ∷ certs) h e =
      let (next, step, rest) = >>=-eq-ok (key_cert pem out c) _ e in
      try_fold-distinct next ks certs (key_cert-distinct out next c h step) rest

  -- No two entries have one key.
  pub keyed_certs-distinct :
      (certs : List Certificate) (ks : List KeyedCert)
      → keyed_certs pem certs ≡ ok ks
      → distinct (map cert_key ks) ≡ true
  unfolding keyed_certs
  keyed_certs-distinct certs ks e = try_fold-distinct [] ks certs refl e

  -- The certificate is for this listener, and has this fingerprint.
  abbrev pub is_under : SocketAddr × Text → Certificate → Bool
  is_under key c = elim (fingerprint_of pem c) [ ok fp ↦ (c.listener, fp) == key | err e ↦ false ]

  abbrev pub serves : SocketAddr × Text → Text → Certificate → Bool
  serves key name c = is_under key c && contains name c.names

  abbrev pub entry_serves : SocketAddr × Text → Text → KeyedCert → Bool
  entry_serves key name k = cert_key k == key && contains name k.cert.names

  -- The entries hold what these certificates do: their keys, and under each key their names.
  abbrev pub Holds : List KeyedCert → List Certificate → Type 0
  Holds ks certs =
      ((key : SocketAddr × Text) → contains key (map cert_key ks) ≡ any (is_under key) certs)
      × ((key : SocketAddr × Text) (name : Text)
          → any (entry_serves key name) ks ≡ any (serves key name) certs)

  is_under_at :
      (key : SocketAddr × Text) (fp : Text) (c : Certificate)
      → fingerprint_of pem c ≡ ok fp
      → is_under key c ≡ ((c.listener, fp) == key)
  is_under_at key fp c e =
      ap
        (λ (r : Result TranslatorError Text). elim r [
          | ok f ↦ (c.listener, f) == key
          | err x ↦ false
        ])
        e

  names-merge :
      (name : Text) (k : KeyedCert) (c : Certificate) (chain : List Bytes)
      → contains name (merge k c chain).cert.names
        ≡ (contains name k.cert.names || contains name c.names)
  unfolding merge
  names-merge name k c chain = ground (
    arith,
    contains-to_set name (k.cert.names ++ c.names),
    contains-append name k.cert.names c.names,
  )

  insert-serves :
      (key : SocketAddr × Text) (name fp : Text) (c : Certificate) (chain : List Bytes)
      (out : List KeyedCert)
      → fingerprint_of pem c ≡ ok fp
      → any (entry_serves key name) (insert_cert c fp chain out)
        ≡ (serves key name c || any (entry_serves key name) out)
  unfolding insert_cert
  insert-serves key name fp c chain out e =
      any-upsert_by cert_key (c.listener, fp) (λ k. merge k c chain) _ (entry_serves key name)
        (serves key name c) (ap (λ b. b && contains name c.names) (sym (is_under_at key fp c e)))
        (λ k same. ground (
          arith,
          is_under_at key fp c e,
          names-merge name k c chain,
          ap (λ i. i == key) (cert_key-merge k c chain),
          ap (λ i. i == key) same,
        ))
        out

  insert-keys :
      (key : SocketAddr × Text) (fp : Text) (c : Certificate) (chain : List Bytes)
      (out : List KeyedCert)
      → fingerprint_of pem c ≡ ok fp
      → contains key (map cert_key (insert_cert c fp chain out))
        ≡ (is_under key c || contains key (map cert_key out))
  unfolding insert_cert
  insert-keys key fp c chain out e =
      contains-upsert_by cert_key (c.listener, fp) (λ k. merge k c chain) _
        (λ k. cert_key-merge k c chain) refl key out
      ∙ ap (λ b. b || contains key (map cert_key out))
          (==-comm key (c.listener, fp) ∙ sym (is_under_at key fp c e))

  -- One more certificate: what it has comes first.
  key_cert-keys :
      (out ks : List KeyedCert) (c : Certificate) (key : SocketAddr × Text)
      → key_cert pem out c ≡ ok ks
      → contains key (map cert_key ks) ≡ (is_under key c || contains key (map cert_key out))
  unfolding key_cert
  key_cert-keys out ks c key e =
      let (fp, found, rest) = >>=-eq-ok (fingerprint_of pem c) _ e in
      let (chain, decoded, last) = >>=-eq-ok (served_chain pem c) _ rest in
      ap (λ l. contains key (map cert_key l)) (sym (ok_injective last))
      ∙ insert-keys key fp c chain out found

  key_cert-serves :
      (out ks : List KeyedCert) (c : Certificate) (key : SocketAddr × Text) (name : Text)
      → key_cert pem out c ≡ ok ks
      → any (entry_serves key name) ks ≡ (serves key name c || any (entry_serves key name) out)
  unfolding key_cert
  key_cert-serves out ks c key name e =
      let (fp, found, rest) = >>=-eq-ok (fingerprint_of pem c) _ e in
      let (chain, decoded, last) = >>=-eq-ok (served_chain pem c) _ rest in
      ap (any (entry_serves key name)) (sym (ok_injective last))
      ∙ insert-serves key name fp c chain out found

  all_keys :
      (key : SocketAddr × Text) (certs : List Certificate) (out ks : List KeyedCert)
      → try_fold (key_cert pem) out certs ≡ ok ks
      → contains key (map cert_key ks)
        ≡ (any (is_under key) certs || contains key (map cert_key out))
  all_keys key [] out ks e = ap (λ l. contains key (map cert_key l)) (sym (ok_injective e))
  all_keys key (c ∷ certs) out ks e =
      let (next, step, rest) = >>=-eq-ok (key_cert pem out c) _ e in
      all_keys key certs next ks rest ∙ ground (arith, key_cert-keys out next c key step)

  all_names :
      (key : SocketAddr × Text) (name : Text) (certs : List Certificate) (out ks : List KeyedCert)
      → try_fold (key_cert pem) out certs ≡ ok ks
      → any (entry_serves key name) ks
        ≡ (any (serves key name) certs || any (entry_serves key name) out)
  all_names key name [] out ks e = ap (any (entry_serves key name)) (sym (ok_injective e))
  all_names key name (c ∷ certs) out ks e =
      let (next, step, rest) = >>=-eq-ok (key_cert pem out c) _ e in
      all_names key name certs next ks rest
      ∙ ground (arith, key_cert-serves out next c key name step)

  -- The keyed certificates have one entry for each (listener, fingerprint) of the certificates and
  -- for no other, and the names of an entry are exactly those of all the certificates under it.
  pub keyed_certs-Holds :
      (certs : List Certificate) (ks : List KeyedCert)
      → keyed_certs pem certs ≡ ok ks
      → (distinct (map cert_key ks) ≡ true) × Holds ks certs
  unfolding keyed_certs
  keyed_certs-Holds certs ks e = (
    keyed_certs-distinct certs ks e,
    (
      λ key. all_keys key certs [] ks e ∙ or_false (any (is_under key) certs),
      λ key name. all_names key name certs [] ks e ∙ or_false (any (serves key name) certs),
    ),
  )
