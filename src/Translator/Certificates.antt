-- ===== src/Translator/Certificates.antt =====
-- Certificates keyed by (listener, fingerprint), crates/translator/src/lib.rs. Decoding, splitting
-- and fingerprinting a PEM text are Sōzu's functions, taken as a record.
pub mod Components
pub mod Transfer
pub mod Diff
pub mod Keys
pub mod Keyless
use sozu_gateway.Prelude.{ℕ, ◌+◌, ◌-◌, Bool, true, false, not, ◌&&◌, List, [], ◌∷◌, ◌++◌, map}
use Prim.Native.Nat.{◌/◌, ◌%◌}
use sozu_gateway.Prelude.Tests.{if◌then◌else◌, ltb}
use sozu_gateway.Prelude.Eq.{Eq, ◌==◌, list_eq, nat_eq, pair_eq}
use sozu_gateway.Prelude.Results.{Result, ok, err, ◌>>=◌, map_err, traverse, try_fold}
use sozu_gateway.Prelude.Lists.{filter, flat_map, length}
use sozu_gateway.Prelude.Lists.Upsert.{upsert_by}
use sozu_gateway.Prelude.Order.{
  Order, Reverse, nat_order, list_order, pair_order, reverse_order, lt,
}
use sozu_gateway.Prelude.Order.Sets.{to_set}
use sozu_gateway.Prelude.Texts.{Text}
use sozu_gateway.Ir.{Certificate, SocketAddr, address_eq}
use sozu_gateway.Translator.Errors.{TranslatorError, certificate}

abbrev pub Bytes : Type 0
Bytes = List ℕ

-- sozu-command-lib's `certificate` module; an error is its description.
pub record Pem : Type 0 where
  pub calculate_fingerprint : Text → Result Text Bytes
  pub parse_pem : Text → Result Text Bytes
  pub split_certificate_chain : Text → List Text

unfoldable pub hex_digit : ℕ → ℕ
hex_digit n = if ltb n 10 then b'0' + n else b'a' + (n - 10)

-- Lower-case hex, two digits a byte.
unfoldable pub hex : Bytes → Text
unfolding hex_digit
hex [] = []
hex (b ∷ bytes) = hex_digit (b / 16) ∷ hex_digit (b % 16) ∷ hex bytes

pub record KeyedCert : Type 0 where
  pub listener : SocketAddr
  pub fingerprint : Text
  pub chain : List Bytes
  pub cert : Certificate

abbrev pub cert_key : KeyedCert → SocketAddr × Text
cert_key k = (k.listener, k.fingerprint)

-- The names as a set: `names_set`.
unfoldable pub names_set : Certificate → List Text
names_set c = to_set c.names

-- What decides which of two entries for one certificate is sent: the longest chain, then the
-- smallest chain, key and text.
abbrev pub material : List Bytes → Certificate → Reverse ℕ × (List Bytes × (Text × Text))
material chain c = (record { value = length chain }, (chain, (c.key, c.certificate)))

unfoldable pub merge : KeyedCert → Certificate → List Bytes → KeyedCert
merge existing c chain =
    let names : List Text = to_set (existing.cert.names ++ c.names) in
    if lt (material chain c) (material existing.chain existing.cert)
    then record existing { chain = chain; cert = record c { names = names } }
    else record existing { cert = record (existing.cert) { names = names } }

-- The entry joins its group, or starts one at the end.
unfoldable pub insert_cert : Certificate → Text → List Bytes → List KeyedCert → List KeyedCert
insert_cert c fp chain =
    upsert_by cert_key (c.listener, fp) (λ k. merge k c chain)
      (record { listener = c.listener; fingerprint = fp; chain = chain; cert = c })

module _ (pem : Pem) where
  unfoldable pub fingerprint_of : Certificate → Result TranslatorError Text
  unfolding hex
  fingerprint_of c = do
    bytes ← map_err certificate (pem.calculate_fingerprint c.certificate)
    ok (hex bytes)

  decode : Text → Result TranslatorError Bytes
  decode text = map_err certificate (pem.parse_pem text)

  unfoldable pub served_chain : Certificate → Result TranslatorError (List Bytes)
  unfolding decode
  served_chain c = do
    leaf ← decode c.certificate
    links ← traverse decode (flat_map pem.split_certificate_chain c.chain)
    ok (filter (λ link. not (link == leaf)) links)

  unfoldable pub key_cert : List KeyedCert → Certificate → Result TranslatorError (List KeyedCert)
  key_cert out c = do fp ← fingerprint_of c; chain ← served_chain c; ok (insert_cert c fp chain out)

  unfoldable pub keyed_certs : List Certificate → Result TranslatorError (List KeyedCert)
  keyed_certs = try_fold key_cert []
