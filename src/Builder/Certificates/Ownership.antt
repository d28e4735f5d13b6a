-- ===== src/Builder/Certificates/Ownership.antt =====
-- Who keeps a certificate's name (`arbitrate_certificate_names`, crates/builder/src/lib.rs).
use sozu_gateway.Prelude.{
  ℕ, ◌≡◌, refl, ap, sym, ◌∙◌, inl, inr, Bool, true, false, not, ◌&&◌, ◌||◌, Option, none, some,
  List, [], ◌∷◌, arith,
}
use sozu_gateway.Prelude.Tests.{if◌then◌else◌, Bool-cases}
use sozu_gateway.Prelude.Eq.{◌==◌, nat_eq, list_eq, pair_eq, ==-refl, eq_of-==}
use sozu_gateway.Prelude.Lists.{all, any}
use sozu_gateway.Prelude.Order.{Order, nat_order, list_order, pair_order, lt}
use sozu_gateway.Prelude.Texts.{Text}
use sozu_gateway.Ir.{address_eq}
use sozu_gateway.Builder.Routes.Collisions.{OwnerIdent, Claims, claim_for, claim_rank}
use sozu_gateway.Builder.Certificates.{
  ClaimedCert, NameKey, owner, claims_name, rank, better, best_from, oldest_claimant, is_winning,
  key_of, keeps,
}

abbrev rank_order : Order ((ℕ × (List Text × Text)) × OwnerIdent)
rank_order = pair_order

module _ (claims : Claims) (key : NameKey) where
  abbrev before : ClaimedCert → ClaimedCert → Bool
  before c d = rank_order.le (rank claims c) (rank claims d)

  -- No claimant of the name is older.
  abbrev pub is_oldest : List ClaimedCert → ClaimedCert → Bool
  is_oldest certs d = all (λ e. not (claims_name key e) || before d e) certs

  abbrev bounded : (ClaimedCert → Bool) → Option ClaimedCert → Bool
  bounded p none = true
  bounded p (some v) = p v

  better-lower :
      (w c : ClaimedCert) (best : Option ClaimedCert)
      → bounded (before w) (better claims best c) ≡ true
      → (bounded (before w) best && before w c) ≡ true
  unfolding better
  better-lower w c none h = ground (arith, h)
  better-lower w c (some v) h = elim (Bool-cases (lt (rank claims c) (rank claims v))) [
    | inl l ↦ ground (
      arith,
      h,
      l,
      rank_order.le_total (rank claims c) (rank claims v),
      rank_order.le_trans (rank claims w) (rank claims c) (rank claims v),
    )
    | inr l ↦
        ground (arith, h, l, rank_order.le_trans (rank claims w) (rank claims v) (rank claims c))
  ]

  abbrev none_yet : Option ClaimedCert → Bool
  none_yet none = true
  none_yet (some v) = false

  better-some :
      (c : ClaimedCert) (best : Option ClaimedCert) → none_yet (better claims best c) ≡ false
  unfolding better
  better-some c none = refl
  better-some c (some v) = elim (Bool-cases (lt (rank claims c) (rank claims v))) [
    | inl l ↦ rw l refl
    | inr l ↦ rw l refl
  ]

  better-inherits :
      (p : ClaimedCert → Bool) (c : ClaimedCert) (best : Option ClaimedCert)
      → bounded p best ≡ true
      → p c ≡ true
      → bounded p (better claims best c) ≡ true
  unfolding better
  better-inherits p c none b h = h
  better-inherits p c (some v) b h = elim (Bool-cases (lt (rank claims c) (rank claims v))) [
    | inl l ↦ rw l h
    | inr l ↦ rw l b
  ]

  best_from-lower :
      (w : ClaimedCert) (best : Option ClaimedCert) (certs : List ClaimedCert)
      → best_from claims key best certs ≡ some w
      → (bounded (before w) best && is_oldest certs w) ≡ true
  unfolding best_from
  best_from-lower w best [] h =
      ap (λ b. bounded (before w) b && true) h
      ∙ ground (arith, rank_order.le_total (rank claims w) (rank claims w))
  best_from-lower w best (c ∷ certs) h = elim (Bool-cases (claims_name key c)) [
    | inl t ↦
        let next : best_from claims key (better claims best c) certs ≡ some w =
          ap (λ b. best_from claims key (if b then better claims best c else best) certs) (sym t)
          ∙ h in
        let ih = best_from-lower w (better claims best c) certs next in
        ground (arith, ih, better-lower w c best (ground (arith, ih)), t)
    | inr t ↦
        let next : best_from claims key best certs ≡ some w =
          ap (λ b. best_from claims key (if b then better claims best c else best) certs) (sym t)
          ∙ h in
        ground (arith, best_from-lower w best certs next, t)
  ]

  -- What all claimants have, the winner has.
  best_from-inherits :
      (p : ClaimedCert → Bool) (w : ClaimedCert) (best : Option ClaimedCert)
      (certs : List ClaimedCert)
      → all (λ e. not (claims_name key e) || p e) certs ≡ true
      → bounded p best ≡ true
      → best_from claims key best certs ≡ some w
      → p w ≡ true
  unfolding best_from
  best_from-inherits p w best [] a b h = sym (ap (bounded p) h) ∙ b
  best_from-inherits p w best (c ∷ certs) a b h = elim (Bool-cases (claims_name key c)) [
    | inl t ↦
        best_from-inherits p w (better claims best c) certs (ground (arith, a))
          (better-inherits p c best b (ground (arith, a, t)))
          (ap (λ b. best_from claims key (if b then better claims best c else best) certs) (sym t)
            ∙ h)
    | inr t ↦ best_from-inherits p w best certs (ground (arith, a)) b (
        ap (λ b. best_from claims key (if b then better claims best c else best) certs) (sym t) ∙ h)
  ]

  best_from-some :
      (best : Option ClaimedCert) (certs : List ClaimedCert)
      → (not (none_yet best) || any (claims_name key) certs) ≡ true
      → (w : ClaimedCert) × (best_from claims key best certs ≡ some w)
  unfolding best_from
  best_from-some none [] h = cc
  best_from-some (some v) [] h = (v, refl)
  best_from-some best (c ∷ certs) h = elim (Bool-cases (claims_name key c)) [
    | inl t ↦
        let (w, found) =
          best_from-some (better claims best c) certs (ground (arith, better-some c best)) in
        (
          w,
          ap (λ b. best_from claims key (if b then better claims best c else best) certs) t ∙ found,
        )
    | inr t ↦
        let (w, found) = best_from-some best certs (ground (arith, h, t)) in
        (
          w,
          ap (λ b. best_from claims key (if b then better claims best c else best) certs) t ∙ found,
        )
  ]

  -- An object that claims the name shares the winner's owner exactly when no claimant is older.
  owner-oldest :
      (certs : List ClaimedCert) (w d : ClaimedCert)
      → oldest_claimant claims key certs ≡ some w
      → all (λ e. not (claims_name key e) || before w e) certs ≡ true
      → before w d ≡ true
      → (owner d == owner w) ≡ is_oldest certs d
  unfolding oldest_claimant
  owner-oldest certs w d h low under = elim (Bool-cases (owner d == owner w)) [
    | inl e ↦
        let same : rank claims d ≡ rank claims w =
          ap (λ o. (claim_rank (claim_for o claims), o)) (eq_of-== (owner d) (owner w) e) in
        let oldest : is_oldest certs d ≡ true =
          ap (λ r. all (λ x. not (claims_name key x) || rank_order.le r (rank claims x)) certs) same
          ∙ low in
        e ∙ sym oldest
    | inr e ↦ elim (Bool-cases (is_oldest certs d)) [
      | inr n ↦ e ∙ sym n
      | inl o ↦
          let above = best_from-inherits (before d) w none certs o refl h in
          let same = rank_order.le_antisym (rank claims d) (rank claims w) above under in
          let one : owner d ≡ owner w =
            ap (λ (r : (ℕ × (List Text × Text)) × OwnerIdent). r.1) same in
          let equal : (owner d == owner w) ≡ true =
            ap (λ x. x == owner w) one ∙ ==-refl (owner w) in
          ground (arith, e, equal)
    ]
  ]

any_alike :
    {A : Type 0} (r p q : A → Bool) (xs : List A)
    → all r xs ≡ true
    → ((x : A) → r x ≡ true → p x ≡ q x)
    → any p xs ≡ any q xs
any_alike r p q [] h k = refl
any_alike r p q (x ∷ xs) h k =
    ground (arith, k x (ground (arith, h)), any_alike r p q xs (ground (arith, h)) k)

module _ (claims : Claims) (certs : List ClaimedCert) (c : ClaimedCert) (name : Text) where
  -- An object with the oldest claim on the name loaded this very certificate for it.
  abbrev pub has_oldest_claim : Bool
  has_oldest_claim =
      any
        (λ (d : ClaimedCert).
          claims_name (key_of claims c name) d
          && is_oldest claims (key_of claims c name) certs d
          && d.cert.fingerprint == c.cert.fingerprint)
        certs

  -- A certificate keeps a name that is claimed on its listener exactly when an object whose claim on
  -- that name is the oldest loaded the same certificate for it, whoever loaded this one.
  pub keeps-has_oldest_claim :
      any (claims_name (key_of claims c name)) certs ≡ true
      → keeps claims certs c name ≡ has_oldest_claim
  unfolding keeps oldest_claimant is_winning
  keeps-has_oldest_claim h =
      let key = key_of claims c name in
      let (w, found) = best_from-some claims key none certs (ground (arith, h)) in
      let low : is_oldest claims key certs w ≡ true =
        ground (arith, best_from-lower claims key w none certs found) in
      ap
        (λ (o : Option ClaimedCert). elim o [
          | none ↦ true
          | some won ↦ is_winning claims key c.cert.fingerprint won certs
        ])
        found
      ∙ any_alike (λ e. not (claims_name key e) || before claims key w e) _ _ certs low
          (same w found low)
    where
      same :
          (w : ClaimedCert)
          → oldest_claimant claims (key_of claims c name) certs ≡ some w
          → is_oldest claims (key_of claims c name) certs w ≡ true
          → (d : ClaimedCert)
          → (not (claims_name (key_of claims c name) d) || before claims (key_of claims c name) w d)
            ≡ true
          → (claims_name (key_of claims c name) d
              && owner d == owner w
              && d.cert.fingerprint == c.cert.fingerprint)
            ≡ (claims_name (key_of claims c name) d
                && is_oldest claims (key_of claims c name) certs d
                && d.cert.fingerprint == c.cert.fingerprint)
      same w found low d r = elim (Bool-cases (claims_name (key_of claims c name) d)) [
        | inr n ↦ ground (arith, n)
        | inl t ↦
            let o =
              owner-oldest claims (key_of claims c name) certs w d found low
                (ground (arith, r, t)) in
            ap
              (λ b.
                claims_name (key_of claims c name) d
                && b
                && d.cert.fingerprint == c.cert.fingerprint)
              o
      ]
