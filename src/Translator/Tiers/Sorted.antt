-- ===== src/Translator/Tiers/Sorted.antt =====
-- What the canonical order of a batch gives (`canonicalize_ranked`, crates/translator/src/lib.rs).
use mathlib.Core.List.{Perm}
use sozu_gateway.Prelude.{◌≡◌, refl, ap, true, List, [], ◌∷◌, map, arith}
use sozu_gateway.Prelude.Tests.{leb}
use sozu_gateway.Prelude.Eq.{pair_discrete}
use sozu_gateway.Prelude.Lists.{all}
use sozu_gateway.Prelude.Order.{nat_order, list_order, pair_order, pair_le}
use sozu_gateway.Prelude.Order.Sort.{sort_by-sorted, sort_by_of_perm, sorted}
use sozu_gateway.Prelude.Texts.{Text}
use sozu_gateway.Wire.{Request, Request_discrete}
use sozu_gateway.Translator.Tiers.{
  CertRank, gains, trades, withdraws, rank_key, CertRank_discrete, tier, batch_key, sort_batch,
  canonicalize_ranked,
}

rank_key_injective : (a b : CertRank) → rank_key a ≡ rank_key b → a ≡ b
rank_key_injective gains b e = ground arith
rank_key_injective (trades n) b e = ground arith
rank_key_injective withdraws b e = ground arith

module _ (json : Request → Text) where
  batch_key_injective :
      ((r s : Request) → json r ≡ json s → r ≡ s)
      → (a b : CertRank × Request) → batch_key json a ≡ batch_key json b
      → a ≡ b
  batch_key_injective injective (k, r) (l, s) e =
      ground (arith, rank_key_injective k l, injective r s)

  -- Where the encoding tells requests apart, batches with the same ranked requests are sent in
  -- the same order.
  pub canonicalize_ranked_of_perm :
      ((r s : Request) → json r ≡ json s → r ≡ s)
      → (xs ys : List (CertRank × Request)) → Perm xs ys
      → canonicalize_ranked json xs ≡ canonicalize_ranked json ys
  unfolding canonicalize_ranked
  canonicalize_ranked_of_perm injective xs ys p = ap (map (λ r. r.1)) (
      sort_by_of_perm (batch_key json) (batch_key_injective injective)
        (pair_discrete CertRank_discrete Request_discrete) p)

  tiers_head :
      (x : CertRank × Request) (xs : List (CertRank × Request))
      → all (λ y. pair_le (batch_key json x) (batch_key json y)) xs ≡ true
      → all (λ s. leb (tier x.1) (tier s)) (map (λ r. r.1) xs) ≡ true
  unfolding pair_le
  tiers_head x [] h = refl
  tiers_head x (y ∷ xs) h = ground (arith, tiers_head x xs)

  tiers_sorted :
      (xs : List (CertRank × Request))
      → sorted (batch_key json) xs ≡ true
      → sorted tier (map (λ r. r.1) xs) ≡ true
  tiers_sorted [] h = refl
  tiers_sorted (x ∷ xs) h = ground (arith, tiers_head x xs, tiers_sorted xs)

  pub canonicalize_ranked-sorted :
      (xs : List (CertRank × Request)) → sorted tier (canonicalize_ranked json xs) ≡ true
  unfolding canonicalize_ranked
  canonicalize_ranked-sorted xs =
      tiers_sorted (sort_batch json xs) (sort_by-sorted (batch_key json) xs)
