-- ===== src/Translator/Certificates/Keyless.antt =====
-- What the diff reads of keyed certificates (`keyed_certs`, crates/translator/src/lib.rs): neither
-- the private keys nor the texts.
use sozu_gateway.Prelude.{
  ℕ, ◌≡◌, refl, ap, sym, ◌∙◌, Bool, true, false, inl, inr, List, [], ◌∷◌, ◌++◌, map, arith,
}
use sozu_gateway.Prelude.Tests.{if◌then◌else◌, Bool-cases}
use sozu_gateway.Prelude.Eq.{◌==◌, list_eq, nat_eq, pair_eq}
use sozu_gateway.Prelude.Results.{Result, ok, err, ◌>>=◌, try_fold}
use sozu_gateway.Prelude.Lists.{length}
use sozu_gateway.Prelude.Lists.Upsert.{upsert_by}
use sozu_gateway.Prelude.Order.{
  Reverse, nat_order, list_order, pair_order, reverse_order, lt, pair_le, list_antisym,
}
use sozu_gateway.Prelude.Order.Sets.{to_set}
use sozu_gateway.Prelude.Texts.{Text}
use sozu_gateway.Ir.{Certificate, SocketAddr, address_eq}
use sozu_gateway.Translator.Errors.{TranslatorError}
use sozu_gateway.Translator.Certificates.{
  Bytes, Pem, KeyedCert, cert_key, material, merge, insert_cert, fingerprint_of, served_chain,
  key_cert, keyed_certs,
}

-- A certificate without its private key.
unfoldable pub keyless : Certificate → Certificate
keyless c = record c { key = [] }

-- The identity, the served chain and the names.
abbrev pub face : KeyedCert → KeyedCert
face k = record {
  listener = k.listener;
  fingerprint = k.fingerprint;
  chain = k.chain;
  cert = record {
    listener = k.listener;
    certificate = [];
    chain = [];
    key = [];
    names = k.cert.names;
  };
}

abbrev shape : List Bytes → Reverse ℕ × List Bytes
shape chain = (record { value = length chain }, chain)

abbrev sooner : List Bytes → List Bytes → List Bytes
sooner a b = if lt (shape a) (shape b) then a else b

-- The chain that is kept does not depend on the texts.
kept_chain :
    (a b : List Bytes) (c d : Certificate)
    → (if lt (material a c) (material b d) then a else b) ≡ sooner a b
unfolding pair_le
kept_chain a b c d = ground (arith, list_antisym a b)

abbrev join_face : List Bytes → List Text → KeyedCert → KeyedCert
join_face chain names e = record e {
  chain = sooner chain e.chain;
  cert = record (e.cert) { names = to_set (e.cert.names ++ names) };
}

abbrev with_chain : KeyedCert → List Text → List Bytes → KeyedCert
with_chain k names chain =
    face (record k {
      chain = chain;
      cert = record (k.cert) { names = to_set (k.cert.names ++ names) };
    })

face_if :
    (b : Bool) (k : KeyedCert) (c : Certificate) (chain : List Bytes)
    → face (
        if b
        then record k {
          chain = chain;
          cert = record c { names = to_set (k.cert.names ++ c.names) };
        }
        else record k { cert = record (k.cert) { names = to_set (k.cert.names ++ c.names) } })
      ≡ with_chain k c.names (if b then chain else k.chain)
face_if true k c chain = refl
face_if false k c chain = refl

face-merge :
    (k : KeyedCert) (c : Certificate) (chain : List Bytes)
    → face (merge k c chain) ≡ join_face chain c.names (face k)
unfolding merge
face-merge k c chain =
    face_if (lt (material chain c) (material k.chain k.cert)) k c chain
    ∙ ap (with_chain k c.names) (kept_chain chain k.chain c k.cert)

face-upsert :
    (key : SocketAddr × Text) (join : KeyedCert → KeyedCert) (new : KeyedCert)
    (joined : KeyedCert → KeyedCert)
    → ((k : KeyedCert) → face (join k) ≡ joined (face k))
    → (out : List KeyedCert)
    → map face (upsert_by cert_key key join new out)
      ≡ upsert_by cert_key key joined (face new) (map face out)
unfolding upsert_by
face-upsert key join new joined h [] = refl
face-upsert key join new joined h (k ∷ out) = elim (Bool-cases (cert_key k == key)) [
  | inl e ↦ rw (e, h k) refl
  | inr e ↦ rw (e, face-upsert key join new joined h out) refl
]

faces-insert_cert :
    (c : Certificate) (fp : Text) (chain : List Bytes) (out plain : List KeyedCert)
    → map face out ≡ map face plain
    → map face (insert_cert c fp chain out) ≡ map face (insert_cert (keyless c) fp chain plain)
unfolding insert_cert keyless
faces-insert_cert c fp chain out plain h =
    face-upsert (c.listener, fp) (λ k. merge k c chain) _ (join_face chain c.names)
      (λ k. face-merge k c chain) out
    ∙ ap (upsert_by cert_key (c.listener, fp) (join_face chain c.names) _) h
    ∙ sym (
        face-upsert (c.listener, fp) (λ k. merge k (keyless c) chain) _ (join_face chain c.names)
          (λ k. face-merge k (keyless c) chain) plain)

abbrev pub faces : Result TranslatorError (List KeyedCert) → Result TranslatorError (List KeyedCert)
faces r = r >>= λ ks. ok (map face ks)

keyed :
    (fingerprint : Result TranslatorError Text) (served : Result TranslatorError (List Bytes))
    (c : Certificate) (out plain : List KeyedCert)
    → map face out ≡ map face plain
    → faces (do fp ← fingerprint; chain ← served; ok (insert_cert c fp chain out))
      ≡ faces (do fp ← fingerprint; chain ← served; ok (insert_cert (keyless c) fp chain plain))
keyed (err e) served c out plain h = refl
keyed (ok fp) (err e) c out plain h = refl
keyed (ok fp) (ok chain) c out plain h = ap ok (faces-insert_cert c fp chain out plain h)

faces-bind :
    (r s : Result TranslatorError (List KeyedCert))
    (next after : List KeyedCert → Result TranslatorError (List KeyedCert))
    → faces r ≡ faces s
    → ((a b : List KeyedCert) → map face a ≡ map face b → faces (next a) ≡ faces (after b))
    → faces (r >>= next) ≡ faces (s >>= after)
faces-bind (ok a) (ok b) next after h k = k a b cc
faces-bind (ok a) (err e) next after h k = cc
faces-bind (err e) (ok b) next after h k = cc
faces-bind (err e) (err f) next after h k = h

module _ (pem : Pem) where
  faces-key_cert :
      (c : Certificate) (out plain : List KeyedCert)
      → map face out ≡ map face plain
      → faces (key_cert pem out c) ≡ faces (key_cert pem plain (keyless c))
  unfolding key_cert keyless fingerprint_of served_chain
  faces-key_cert c out plain h = keyed (fingerprint_of pem c) (served_chain pem c) c out plain h

  faces-try_fold :
      (certs : List Certificate) (out plain : List KeyedCert)
      → map face out ≡ map face plain
      → faces (try_fold (key_cert pem) out certs)
        ≡ faces (try_fold (key_cert pem) plain (map keyless certs))
  faces-try_fold [] out plain h = ap ok h
  faces-try_fold (c ∷ certs) out plain h =
      faces-bind (key_cert pem out c) (key_cert pem plain (keyless c)) _ _
        (faces-key_cert c out plain h) (faces-try_fold certs)

  -- Without the private keys the same certificates are keyed, with the same names and chains.
  pub faces-keyed_certs :
      (certs : List Certificate)
      → faces (keyed_certs pem certs) ≡ faces (keyed_certs pem (map keyless certs))
  unfolding keyed_certs
  faces-keyed_certs certs = faces-try_fold certs [] [] refl
