-- ===== src/Builder/Certificates/Merged.antt =====
-- The names that the merge of certificates keeps (`merge_certificates`, crates/builder/src/lib.rs).
use sozu_gateway.Prelude.{
  ℕ, ◌≡◌, refl, ap, sym, ◌∙◌, inl, inr, Bool, true, false, not, ◌&&◌, ◌||◌, List, [], ◌∷◌, ◌++◌,
  map, arith,
}
use sozu_gateway.Prelude.Tests.{Bool-cases}
use sozu_gateway.Prelude.Eq.{◌==◌, nat_eq, list_eq, pair_eq, ==-refl, eq_of-==}
use sozu_gateway.Prelude.Lists.{all, any, filter, is_empty}
use sozu_gateway.Prelude.Lists.Keys.{contains, contains-append}
use sozu_gateway.Prelude.Lists.Upsert.{upsert_by, any-upsert_by}
use sozu_gateway.Prelude.Order.{nat_order, list_order, pair_order}
use sozu_gateway.Prelude.Order.Sort.{sort_by, all-sort_by}
use sozu_gateway.Prelude.Order.Sets.{to_set, contains-to_set}
use sozu_gateway.Prelude.Texts.{Text}
use sozu_gateway.Ir.{Certificate, SocketAddr, address_eq, address_order}
use sozu_gateway.Builder.Certificates.{
  FingerprintedCert, MergedCert, merged_key, join_cert, served_first, merge_into,
  merge_certificates,
}

module _ (listener : SocketAddr) (name : Text) where
  -- A certificate that serves the name on the listener.
  abbrev pub serves : Certificate → Bool
  serves c = c.listener == listener && contains name c.names

  abbrev carries : MergedCert → Bool
  carries m = m.listener == listener && contains name m.names

  abbrev fresh : FingerprintedCert → MergedCert
  fresh c = record {
    listener = c.cert.listener;
    fingerprint = c.fingerprint;
    served = c.cert;
    names = to_set c.cert.names;
  }

  carries-fresh : (c : FingerprintedCert) → carries (fresh c) ≡ serves c.cert
  carries-fresh c = ap (λ b. c.cert.listener == listener && b) (contains-to_set name c.cert.names)

  carries-join :
      (c : FingerprintedCert) (m : MergedCert)
      → m.listener ≡ c.cert.listener
      → carries (join_cert c m) ≡ (carries m || serves c.cert)
  unfolding join_cert
  carries-join c m h = ground (
    arith,
    contains-to_set name (m.names ++ c.cert.names),
    contains-append name m.names c.cert.names,
    ap (λ a. a == listener) h,
  )

  any-upsert :
      (c : FingerprintedCert) (merged : List MergedCert)
      → any carries
          (upsert_by merged_key (c.cert.listener, c.fingerprint) (join_cert c) (fresh c) merged)
        ≡ (serves c.cert || any carries merged)
  any-upsert c merged =
      any-upsert_by merged_key (c.cert.listener, c.fingerprint) (join_cert c) (fresh c) carries
        (serves c.cert) (carries-fresh c)
        (λ m same. ground (arith, carries-join c m (ap (λ (k : SocketAddr × List ℕ). k.0) same)))
        merged

  any-merge_into :
      (certs : List FingerprintedCert) (merged : List MergedCert)
      → any carries (merge_into certs merged)
        ≡ (any (λ (c : FingerprintedCert). serves c.cert) certs || any carries merged)
  unfolding merge_into
  any-merge_into [] merged = refl
  any-merge_into (c ∷ certs) merged =
      any-merge_into certs
        (upsert_by merged_key (c.cert.listener, c.fingerprint) (join_cert c) (fresh c) merged)
      ∙ ground (arith, any-upsert c merged)

-- The served certificate of an entry is on the entry's listener.
abbrev placed : MergedCert → Bool
placed m = m.served.listener == m.listener

placed-join :
    (c : FingerprintedCert) (m : MergedCert)
    → placed m ≡ true
    → m.listener ≡ c.cert.listener
    → placed (join_cert c m) ≡ true
unfolding join_cert
placed-join c m h e = elim (Bool-cases (served_first c.cert m.served)) [
  | inl t ↦ rw t (ap (λ a. c.cert.listener == a) e ∙ ==-refl c.cert.listener)
  | inr t ↦ rw t h
]

placed-upsert :
    (c : FingerprintedCert) (new : MergedCert) (merged : List MergedCert)
    → placed new ≡ true
    → all placed merged ≡ true
    → all placed (upsert_by merged_key (c.cert.listener, c.fingerprint) (join_cert c) new merged)
      ≡ true
unfolding upsert_by
placed-upsert c new [] n h = ground (arith, n)
placed-upsert c new (m ∷ merged) n h =
    elim (Bool-cases (merged_key m == (c.cert.listener, c.fingerprint))) [
      | inl e ↦
          let same : merged_key m ≡ (c.cert.listener, c.fingerprint) =
            eq_of-== (merged_key m) (c.cert.listener, c.fingerprint) e in
          let on = ap (λ (k : SocketAddr × List ℕ). k.0) same in
          rw e (ground (arith, placed-join c m (ground (arith, h)) on, h))
      | inr e ↦ rw e (ground (arith, placed-upsert c new merged n (ground (arith, h)), h))
    ]

placed-merge_into :
    (certs : List FingerprintedCert) (merged : List MergedCert)
    → all placed merged ≡ true
    → all placed (merge_into certs merged) ≡ true
unfolding merge_into
placed-merge_into [] merged h = h
placed-merge_into (c ∷ certs) merged h =
    placed-merge_into certs _ (placed-upsert c _ merged (==-refl c.cert.listener) h)

module _ {A : Type 0} (p : A → Bool) where
  any_eq_all : (xs : List A) → any p xs ≡ not (all (λ x. not (p x)) xs)
  any_eq_all [] = refl
  any_eq_all (x ∷ xs) = ground (arith, any_eq_all xs)

abbrev published : MergedCert → Certificate
published m = record (m.served) { names = m.names }

abbrev named : MergedCert → Bool
named m = not (is_empty m.names)

module _ (listener : SocketAddr) (name : Text) where
  published-carries :
      (m : MergedCert)
      → placed m ≡ true
      → serves listener name (published m) ≡ carries listener name m
  published-carries m h = ap (λ a. a == listener && contains name m.names) (eq_of-== _ _ h)

  unnamed : (m : MergedCert) → named m ≡ false → carries listener name m ≡ false
  unnamed m h = nothing m.names h
    where
      nothing :
          (names : List Text)
          → not (is_empty names) ≡ false
          → (m.listener == listener && contains name names) ≡ false
      nothing [] h = ground arith
      nothing (n ∷ names) h = cc

  any-published :
      (ms : List MergedCert)
      → all placed ms ≡ true
      → any (serves listener name) (map published (filter named ms))
        ≡ any (carries listener name) ms
  any-published [] h = refl
  any-published (m ∷ ms) h = elim (Bool-cases (named m)) [
    | inl t ↦ rw t (
        ground
          (arith, published-carries m (ground (arith, h)), any-published ms (ground (arith, h))))
    | inr t ↦ rw t (ground (arith, unnamed m t, any-published ms (ground (arith, h))))
  ]

  any-sorted :
      (ms : List MergedCert)
      → any (carries listener name) (sort_by merged_key ms) ≡ any (carries listener name) ms
  any-sorted ms =
      any_eq_all (carries listener name) (sort_by merged_key ms)
      ∙ ap not (all-sort_by merged_key (λ m. not (carries listener name m)) ms)
      ∙ sym (any_eq_all (carries listener name) ms)

  -- On every listener exactly the names of the certificates that were merged are served.
  pub serves-merge_certificates :
      (certs : List FingerprintedCert)
      → any (serves listener name) (merge_certificates certs)
        ≡ any (λ (c : FingerprintedCert). serves listener name c.cert) certs
  unfolding merge_certificates
  serves-merge_certificates certs =
      let merged = merge_into certs [] in
      any-published (sort_by merged_key merged)
        (all-sort_by merged_key placed merged ∙ placed-merge_into certs [] refl)
      ∙ any-sorted merged
      ∙ any-merge_into listener name certs []
      ∙ ground arith
