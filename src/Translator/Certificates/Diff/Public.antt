-- ===== src/Translator/Certificates/Diff/Public.antt =====
-- The diff reads the previous certificates' identities, chains and names
-- (`certificate_requests`, crates/translator/src/lib.rs).
use sozu_gateway.Prelude.{
  ◌≡◌, refl, ap, sym, ◌∙◌, Bool, true, false, not, ◌||◌, inl, inr, Option, none, some, List, [],
  ◌∷◌, ◌++◌, map, arith,
}
use sozu_gateway.Prelude.Tests.{if◌then◌else◌, Bool-cases, Option-cases}
use sozu_gateway.Prelude.Eq.{◌==◌, list_eq, nat_eq, pair_eq, eq_of-==}
use sozu_gateway.Prelude.Results.{Result, ok, err, ◌>>=◌, try_fold, >>=-eq-ok}
use sozu_gateway.Prelude.Lists.{All, filter_map}
use sozu_gateway.Prelude.Lists.Keys.{contains}
use sozu_gateway.Prelude.Lists.Upsert.{upsert_by}
use sozu_gateway.Prelude.Order.{nat_order, list_order, pair_order}
use sozu_gateway.Prelude.Order.Sets.{to_set}
use sozu_gateway.Prelude.Texts.{Text, to_ascii_lowercase}
use sozu_gateway.Ir.{Certificate, SocketAddr, address_eq, address_order}
use sozu_gateway.Wire.{Request}
use sozu_gateway.Translator.Errors.{TranslatorError}
use sozu_gateway.Translator.Payloads.{
  add_certificate_request, remove_certificate_request, replace_certificate_request,
}
use sozu_gateway.Translator.Tiers.{CertRank, gains, withdraws}
use sozu_gateway.Translator.Certificates.{
  Bytes, Pem, KeyedCert, cert_key, names_set, merge, insert_cert, fingerprint_of, served_chain,
  key_cert, keyed_certs,
}
use sozu_gateway.Translator.Certificates.Transfer.{SniKey, transfer_order}
use sozu_gateway.Translator.Certificates.Keyless.{keyless, face, faces, faces-keyed_certs}
use sozu_gateway.Translator.Certificates.Diff.{
  Change, change, update, classify_update, difference, sni_keys, in_place_of, trade_of, added_of,
  ranked_trades, take_rotated, rotates, settle_added, removed_certs, diff_certs,
  certificate_requests,
}

-- A keyed certificate is on its listener.
abbrev IsPlaced : KeyedCert → Type 0
IsPlaced k = k.cert.listener ≡ k.listener

merge-IsPlaced :
    (k : KeyedCert) (c : Certificate) (chain : List Bytes)
    → IsPlaced k
    → c.listener ≡ k.listener
    → IsPlaced (merge k c chain)
unfolding merge
merge-IsPlaced k c chain h e = ground (arith, h, e)

insert_cert-IsPlaced :
    (c : Certificate) (fp : Text) (chain : List Bytes) (out : List KeyedCert)
    → All IsPlaced out
    → All IsPlaced (insert_cert c fp chain out)
unfolding insert_cert upsert_by
insert_cert-IsPlaced c fp chain [] h = (refl, tt)
insert_cert-IsPlaced c fp chain (k ∷ out) (p, h) =
    elim (Bool-cases (cert_key k == (c.listener, fp))) [
      | inl e ↦
          let same : cert_key k ≡ (c.listener, fp) = eq_of-== (cert_key k) (c.listener, fp) e in
          rw e (merge-IsPlaced k c chain p (sym (ap (λ (q : SocketAddr × Text). q.0) same)), h)
      | inr e ↦ rw e (p, insert_cert-IsPlaced c fp chain out h)
    ]

module _ (pem : Pem) where
  key_cert-IsPlaced :
      (c : Certificate) (out next : List KeyedCert)
      → All IsPlaced out
      → key_cert pem out c ≡ ok next
      → All IsPlaced next
  unfolding key_cert
  key_cert-IsPlaced c out next h e =
      let (fp, found, rest) = >>=-eq-ok (fingerprint_of pem c) _ e in
      let (chain, decoded, last) = >>=-eq-ok (served_chain pem c) _ rest in
      let same : insert_cert c fp chain out ≡ next = cc in
      rw (← same) (insert_cert-IsPlaced c fp chain out h)

  try_fold-IsPlaced :
      (certs : List Certificate) (out ks : List KeyedCert)
      → All IsPlaced out
      → try_fold (key_cert pem) out certs ≡ ok ks
      → All IsPlaced ks
  try_fold-IsPlaced [] out ks h e = let same : out ≡ ks = cc in rw (← same) h
  try_fold-IsPlaced (c ∷ certs) out ks h e =
      let (next, step, rest) = >>=-eq-ok (key_cert pem out c) _ e in
      try_fold-IsPlaced certs next ks (key_cert-IsPlaced c out next h step) rest

  keyed_certs-IsPlaced :
      (certs : List Certificate) (ks : List KeyedCert)
      → keyed_certs pem certs ≡ ok ks
      → All IsPlaced ks
  unfolding keyed_certs
  keyed_certs-IsPlaced certs ks e = try_fold-IsPlaced certs [] ks tt e

abbrev keys_on : List Text → SocketAddr → List SniKey
keys_on names a = to_set (map (λ n. (a, to_ascii_lowercase n)) names)

update-face : (p d : KeyedCert) → IsPlaced p → update (face p) d ≡ update p d
unfolding update sni_keys names_set
update-face p d h =
    ap
      (λ (keys : List SniKey).
        if not (names_set p.cert == names_set d.cert) || not (p.chain == d.chain)
        then classify_update (replace_certificate_request d.cert d.fingerprint)
            (difference (sni_keys d.cert) keys) (difference keys (sni_keys d.cert))
        else Change.unchanged)
      (ap (keys_on p.cert.names) (sym h))

change-step :
    (prev : List KeyedCert) (p d : KeyedCert)
    → change (p ∷ prev) d ≡ (if cert_key d == cert_key p then update p d else change prev d)
unfolding change
change-step prev p d = elim (Bool-cases (cert_key d == cert_key p)) [
  | inl e ↦ ground (arith, e)
  | inr e ↦ ground (arith, e)
]

-- The two branches may change one after the other.
in_branches :
    {A : Type 0} (b : Bool) (x y u v : A)
    → x ≡ u
    → y ≡ v
    → (if b then x else y) ≡ (if b then u else v)
in_branches true x y u v h k = h
in_branches false x y u v h k = k

change-faces :
    (prev : List KeyedCert) (d : KeyedCert)
    → All IsPlaced prev
    → change (map face prev) d ≡ change prev d
unfolding change
change-faces [] d h = refl
change-faces (p ∷ prev) d (q, h) =
    change-step (map face prev) (face p) d
    ∙ in_branches (cert_key d == cert_key p) _ _ _ _ (update-face p d q) (change-faces prev d h)
    ∙ sym (change-step prev p d)

changes-faces :
    (prev des : List KeyedCert)
    → All IsPlaced prev
    → map (change (map face prev)) des ≡ map (change prev) des
changes-faces prev [] h = refl
changes-faces prev (d ∷ des) h =
    ap (λ c. c ∷ map (change (map face prev)) des) (change-faces prev d h)
    ∙ ap (λ cs. change prev d ∷ cs) (changes-faces prev des h)

removed-faces :
    (des prev : List KeyedCert)
    → removed_certs (map face prev) des ≡ map face (removed_certs prev des)
unfolding removed_certs
removed-faces des [] = refl
removed-faces des (p ∷ prev) = elim (Bool-cases (contains (cert_key p) (map cert_key des))) [
  | inl e ↦ rw e (removed-faces des prev)
  | inr e ↦ rw (e, removed-faces des prev) refl
]

abbrev both_faces : Option (KeyedCert × List KeyedCert) → Option (KeyedCert × List KeyedCert)
both_faces none = none
both_faces (some (old, left)) = some (face old, map face left)

abbrev behind :
    KeyedCert → Option (KeyedCert × List KeyedCert) → Option (KeyedCert × List KeyedCert)
behind old none = none
behind old (some (found, left)) = some (found, old ∷ left)

behind-faces :
    (old : KeyedCert) (o : Option (KeyedCert × List KeyedCert))
    → behind (face old) (both_faces o) ≡ both_faces (behind old o)
behind-faces old none = refl
behind-faces old (some (found, left)) = refl

take_rotated-step :
    (new old : KeyedCert) (removed : List KeyedCert)
    → take_rotated new (old ∷ removed)
      ≡ (if rotates new old then some (old, removed) else behind old (take_rotated new removed))
unfolding take_rotated
take_rotated-step new old removed = ground arith

both-if :
    (b : Bool) (o u : Option (KeyedCert × List KeyedCert))
    → both_faces (if b then o else u) ≡ (if b then both_faces o else both_faces u)
both-if true o u = refl
both-if false o u = refl

take_rotated-faces :
    (new : KeyedCert) (removed : List KeyedCert)
    → take_rotated new (map face removed) ≡ both_faces (take_rotated new removed)
unfolding rotates names_set take_rotated
take_rotated-faces new [] = refl
take_rotated-faces new (old ∷ removed) =
    take_rotated-step new (face old) (map face removed)
    ∙ in_branches (rotates new old) _ _ _ _ refl (
        ap (behind (face old)) (take_rotated-faces new removed)
        ∙ behind-faces old (take_rotated new removed))
    ∙ sym (both-if (rotates new old) _ _)
    ∙ ap both_faces (sym (take_rotated-step new old removed))

-- What an added certificate is settled with.
abbrev rotated :
    KeyedCert
    → List KeyedCert
    → List KeyedCert
    → Option (KeyedCert × List KeyedCert)
    → List (CertRank × Request)
rotated new more removed none =
    (gains, add_certificate_request new.cert) ∷ settle_added more removed
rotated new more removed (some (old, left)) =
    (gains, replace_certificate_request new.cert old.fingerprint) ∷ settle_added more left

settle_added-step :
    (new : KeyedCert) (more removed : List KeyedCert)
    → settle_added (new ∷ more) removed ≡ rotated new more removed (take_rotated new removed)
unfolding settle_added
settle_added-step new more removed = elim (Option-cases (take_rotated new removed)) [
  | inl n ↦ ground (arith, n)
  | inr (found, n) ↦ ground (arith, n)
]

withdrawn-faces :
    (removed : List KeyedCert) → settle_added [] (map face removed) ≡ settle_added [] removed
unfolding settle_added
withdrawn-faces [] = refl
withdrawn-faces (old ∷ removed) =
    ap (λ rs. (withdraws, remove_certificate_request old.listener old.fingerprint) ∷ rs)
      (withdrawn-faces removed)

settle_added-faces :
    (added removed : List KeyedCert)
    → settle_added added (map face removed) ≡ settle_added added removed
settle_added-faces [] removed = withdrawn-faces removed
settle_added-faces (new ∷ more) removed =
    settle_added-step new more (map face removed)
    ∙ ap (rotated new more (map face removed)) (take_rotated-faces new removed)
    ∙ each (settle_added-faces more) (take_rotated new removed)
    ∙ sym (settle_added-step new more removed)
  where
    each :
        ((left : List KeyedCert) → settle_added more (map face left) ≡ settle_added more left)
        → (o : Option (KeyedCert × List KeyedCert))
        → rotated new more (map face removed) (both_faces o) ≡ rotated new more removed o
    each same none = ap (λ rs. (gains, add_certificate_request new.cert) ∷ rs) (same removed)
    each same (some (old, left)) =
        ap (λ rs. (gains, replace_certificate_request new.cert old.fingerprint) ∷ rs) (same left)

diff_certs-faces :
    (json : Request → Text) (prev des : List KeyedCert)
    → All IsPlaced prev
    → diff_certs json (map face prev) des ≡ diff_certs json prev des
unfolding diff_certs
diff_certs-faces json prev des h =
    ap
      (λ changes.
        filter_map in_place_of changes
        ++ ranked_trades (filter_map trade_of changes)
            (transfer_order json (filter_map trade_of changes))
        ++ settle_added (filter_map added_of changes) (removed_certs (map face prev) des))
      (changes-faces prev des h)
    ∙ ap
        (λ gone.
          filter_map in_place_of (map (change prev) des)
          ++ ranked_trades (filter_map trade_of (map (change prev) des))
              (transfer_order json (filter_map trade_of (map (change prev) des)))
          ++ settle_added (filter_map added_of (map (change prev) des)) gone)
        (removed-faces des prev)
    ∙ ap
        (λ last.
          filter_map in_place_of (map (change prev) des)
          ++ ranked_trades (filter_map trade_of (map (change prev) des))
              (transfer_order json (filter_map trade_of (map (change prev) des)))
          ++ last)
        (settle_added-faces (filter_map added_of (map (change prev) des)) (removed_certs prev des))

-- The requests, from the previous certificates once keyed.
abbrev from_keyed :
    (Request → Text)
    → Pem
    → List Certificate
    → Result TranslatorError (List KeyedCert)
    → Result TranslatorError (List (CertRank × Request))
from_keyed json pem desired r = do
  prev ← r
  des ← keyed_certs pem desired
  ok (diff_certs json prev des)

-- Alike continuations give alike results.
>>=-same :
    {E A B : Type 0} (m : Result E A) (f g : A → Result E B)
    → ((a : A) → f a ≡ g a)
    → (m >>= f) ≡ (m >>= g)
>>=-same (ok a) f g h = h a
>>=-same (err e) f g h = refl

from_faces :
    (json : Request → Text) (pem : Pem) (desired : List Certificate)
    (r : Result TranslatorError (List KeyedCert))
    → ((ks : List KeyedCert) → r ≡ ok ks → All IsPlaced ks)
    → from_keyed json pem desired r ≡ from_keyed json pem desired (faces r)
from_faces json pem desired (err e) h = refl
from_faces json pem desired (ok ks) h =
    >>=-same (keyed_certs pem desired) _ _
      (λ des. ap ok (sym (diff_certs-faces json ks des (h ks refl))))

-- The private keys of the previous certificates do not matter: without them the same requests are
-- sent, or the same error is returned.
pub certificate_requests-keyless :
    (json : Request → Text) (pem : Pem) (previous desired : List Certificate)
    → certificate_requests json pem (map keyless previous) desired
      ≡ certificate_requests json pem previous desired
unfolding certificate_requests
certificate_requests-keyless json pem previous desired =
    from_faces json pem desired (keyed_certs pem (map keyless previous))
      (keyed_certs-IsPlaced pem (map keyless previous))
    ∙ ap (from_keyed json pem desired) (sym (faces-keyed_certs pem previous))
    ∙ sym
        (from_faces json pem desired (keyed_certs pem previous) (keyed_certs-IsPlaced pem previous))
