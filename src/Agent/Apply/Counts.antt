-- ===== src/Agent/Apply/Counts.antt =====
-- The counts that a failed batch reports (`apply_unless`, crates/sozu-agent/src/lib.rs).
use mathlib.Core.Path.{subst}
use sozu_gateway.Prelude.{
  ℕ, suc, ◌+◌, ◌<◌, ◌≤◌, ◌≡◌, inl, inr, refl, ap, sym, ◌∙◌, Bool, true, false, none, some, List, [],
  ◌∷◌, arith,
}
use sozu_gateway.Prelude.Tests.{Bool-cases, Option-cases}
use sozu_gateway.Prelude.Lists.{length}
use sozu_gateway.Prelude.Results.{Result, ok, err}
use sozu_gateway.Wire.{Request}
use sozu_gateway.Agent.Channel.{SozuError, abandoned, Io, Agent}
use sozu_gateway.Agent.Settle.{Library}
use sozu_gateway.Agent.Apply.{
  Progress, ApplyError, start, mark_unproven, deliver, note, apply_from, apply_tracked,
  replayable_of, apply_unless,
}

-- Before the request at `applied`.
abbrev pub IsAt : ℕ → Progress → Type 0
IsAt applied p = (p.acknowledged ≡ applied) × ((at : ℕ) → p.unproven ≡ some at → at < applied)

note-IsAt :
    (applied : ℕ) (proven : Bool) (p : Progress)
    → IsAt applied p
    → IsAt (suc applied) (note applied proven p)
unfolding mark_unproven
note-IsAt applied true p (e, h) = (refl, λ at f. ground (arith, h at f))
note-IsAt applied false p (e, h) = (refl, λ at f. first at f)
  where
    first :
        (at : ℕ)
        → elim p.unproven [ none ↦ some applied | some first ↦ some first ] ≡ some at
        → at < suc applied
    first at f = elim (Option-cases p.unproven) [
      | inl n ↦ ground arith
      | inr (k, n) ↦ ground (arith, h k n)
    ]

module _ (io : Io) (lib : Library) (total : ℕ) where
  pub from_abandoned :
      (applied : ℕ) (q : Request) (requests : List Request) (p : Progress) (s : Agent io)
      → io.is_abandoned s.world ≡ true
      → apply_from io lib applied total (q ∷ requests) p s ≡ (err (abandoned applied total), (p, s))
  unfolding apply_from
  from_abandoned applied q requests p s h = rw h refl

  -- The loop after a request was delivered.
  abbrev pub go_on :
      ℕ
      → List Request
      → Progress
      → Result SozuError Bool × Agent io
      → Result SozuError (Unit {0}) × (Progress × Agent io)
  go_on applied requests p d = elim d.0 [
    | err e ↦ (err e, (p, d.1))
    | ok proven ↦ apply_from io lib (suc applied) total requests (note applied proven p) d.1
  ]

  pub from_deliver :
      (applied : ℕ) (q : Request) (requests : List Request) (p : Progress) (s : Agent io)
      → io.is_abandoned s.world ≡ false
      → apply_from io lib applied total (q ∷ requests) p s
        ≡ go_on applied requests p (deliver io lib applied total q s)
  unfolding apply_from
  from_deliver applied q requests p s h = rw h refl

  pub from_ok :
      (applied : ℕ) (q : Request) (requests : List Request) (p : Progress) (s next : Agent io)
      (proven : Bool)
      → io.is_abandoned s.world ≡ false
      → deliver io lib applied total q s ≡ (ok proven, next)
      → apply_from io lib applied total (q ∷ requests) p s
        ≡ apply_from io lib (suc applied) total requests (note applied proven p) next
  from_ok applied q requests p s next proven a d =
      from_deliver applied q requests p s a ∙ ap (go_on applied requests p) d

  pub from_err :
      (applied : ℕ) (q : Request) (requests : List Request) (p : Progress) (s next : Agent io)
      (e : SozuError)
      → io.is_abandoned s.world ≡ false
      → deliver io lib applied total q s ≡ (err e, next)
      → apply_from io lib applied total (q ∷ requests) p s ≡ (err e, (p, next))
  from_err applied q requests p s next e a d =
      from_deliver applied q requests p s a ∙ ap (go_on applied requests p) d

  -- The count of a loop that ended, and of one that stopped.
  abbrev pub Counted : ℕ → List Request → Result SozuError (Unit {0}) → Progress → Type 0
  Counted applied requests (ok u) p = p.acknowledged ≡ applied + length requests
  Counted applied requests (err e) p =
      (applied ≤ p.acknowledged) × (p.acknowledged < applied + length requests)

  Counted-later :
      (applied : ℕ) (q : Request) (requests : List Request) (r : Result SozuError (Unit {0}))
      (p : Progress)
      → Counted (suc applied) requests r p
      → Counted applied (q ∷ requests) r p
  Counted-later applied q requests (ok u) p h = omega (arith, h)
  Counted-later applied q requests (err e) p (h, k) = (omega (arith, h), omega (arith, k))

  abbrev Reaches : ℕ → List Request → Result SozuError (Unit {0}) × (Progress × Agent io) → Type 0
  Reaches applied requests (r, (p, s)) = Counted applied requests r p × IsAt p.acknowledged p

  delivered-counted :
      (applied : ℕ) (q : Request) (requests : List Request) (p : Progress)
      → IsAt applied p
      → ((proven : Bool) (after : Agent io)
          → Reaches
              (suc applied)
              requests
              (apply_from io lib (suc applied) total requests (note applied proven p) after))
      → (d : Result SozuError Bool × Agent io)
      → Reaches applied (q ∷ requests) (go_on applied requests p d)
  delivered-counted applied q requests p (e, h) rest (err x, after) =
      ((omega (arith, e), omega (arith, e)), (refl, λ at f. ground (arith, h at f)))
  delivered-counted applied q requests p (e, h) rest (ok proven, after) =
      let (c, i) = rest proven after in (Counted-later applied q requests _ _ c, i)

  apply_from-counted :
      (applied : ℕ) (requests : List Request) (p : Progress) (s : Agent io)
      → IsAt applied p
      → Reaches applied requests (apply_from io lib applied total requests p s)
  unfolding apply_from
  apply_from-counted applied [] p s (e, h) =
      (omega (arith, e), (refl, λ at f. ground (arith, h at f)))
  apply_from-counted applied (q ∷ requests) p s (e, h) =
      elim (Bool-cases (io.is_abandoned s.world)) [
        | inl a ↦
            subst (Reaches applied (q ∷ requests)) (sym (from_abandoned applied q requests p s a))
              ((omega (arith, e), omega (arith, e)), (refl, λ at f. ground (arith, h at f)))
        | inr a ↦
            subst (Reaches applied (q ∷ requests)) (sym (from_deliver applied q requests p s a)) (
              delivered-counted applied q requests p (e, h)
                (λ proven after.
                  apply_from-counted (suc applied) requests (note applied proven p) after
                    (note-IsAt applied proven p (e, h)))
                (deliver io lib applied total q s))
      ]

replayable_le : (p : Progress) → replayable_of p ≤ p.acknowledged
unfolding replayable_of
replayable_le p = elim (Option-cases p.unproven) [
  | inl n ↦ ground arith
  | inr (at, n) ↦ ground arith
]

-- What a failed batch reports: fewer requests than the batch has were acknowledged, and no more of
-- them are to be replayed.
pub apply_unless-bounds :
    (io : Io) (lib : Library) (requests : List Request) (s : Agent io) (e : ApplyError)
    → (apply_unless io lib requests s).0 ≡ err e
    → (e.applied < length requests) × (e.replayable ≤ e.applied)
unfolding apply_unless apply_tracked
apply_unless-bounds io lib requests s e h =
    bounds (apply_from io lib 0 (length requests) requests start s)
      (apply_from-counted io lib (length requests) 0 requests start s (refl, λ at f. cc)) h
  where
    bounds :
        (d : Result SozuError (Unit {0}) × (Progress × Agent io))
        → Counted io lib (length requests) 0 requests d.0 d.1.0 × IsAt d.1.0.acknowledged d.1.0
        → elim d.0 [
          | ok u ↦ ok tt
          | err cause ↦ err (record {
            applied = d.1.0.acknowledged;
            replayable = replayable_of d.1.0;
            cause = cause;
          })
        ]
          ≡ err e
        → (e.applied < length requests) × (e.replayable ≤ e.applied)
    bounds (ok u, (p, after)) c f = cc
    bounds (err x, (p, after)) c f =
        let applied : p.acknowledged ≡ e.applied = cc in
        let replayable : replayable_of p ≡ e.replayable = cc in
        (omega (arith, c.0.1, applied), omega (arith, replayable_le p, applied, replayable))
