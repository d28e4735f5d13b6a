-- ===== src/Agent/Apply/Stops.antt =====
-- Where a batch stops (`apply_tracked`, crates/sozu-agent/src/lib.rs).
use mathlib.Core.Path.{subst}
use sozu_gateway.Prelude.{
  ℕ, suc, ◌+◌, ◌≡◌, ◌⊎◌, inl, inr, refl, ap, sym, Bool, true, false, List, [], ◌∷◌, ◌++◌, arith,
}
use sozu_gateway.Prelude.Tests.{Bool-cases}
use sozu_gateway.Prelude.Lists.{length}
use sozu_gateway.Prelude.Results.{Result, ok, err}
use sozu_gateway.Wire.{Request}
use sozu_gateway.Agent.Channel.{SozuError, abandoned, Io, Agent}
use sozu_gateway.Agent.Settle.{Library}
use sozu_gateway.Agent.Apply.{Progress, deliver, note, apply_from}
use sozu_gateway.Agent.Apply.Counts.{from_abandoned, from_ok, from_err}

-- A result is one or the other.
outcome :
    {A S : Type 0} (d : Result SozuError A × S)
    → ((a : A) × (s : S) × (d ≡ (ok a, s))) ⊎ ((e : SozuError) × (s : S) × (d ≡ (err e, s)))
outcome (ok a, s) = inl (a, s, refl)
outcome (err e, s) = inr (e, s, refl)

module _ (io : Io) (lib : Library) (total : ℕ) where
  -- Why the batch stopped at `q`: its caller had given up, or `q` failed.
  pub data IsStop (applied : ℕ) (q : Request) (mid : Agent io) (cause : SozuError)
      (after : Agent io) : Type 0 where
    gave_up :
        io.is_abandoned mid.world ≡ true
        → cause ≡ abandoned applied total
        → after ≡ mid
        → IsStop applied q mid cause after
    failed :
        io.is_abandoned mid.world ≡ false
        → deliver io lib applied total q mid ≡ (err cause, after)
        → IsStop applied q mid cause after

  -- The requests, from the one at `applied`, each delivered while the caller still waited, one
  -- after the other: the agent and the progress that they lead to.
  pub data Delivered (reached : Progress) (mid : Agent io)
      : ℕ → List Request → Progress → Agent io → Type 0 where
    finished : {applied : ℕ} → Delivered reached mid applied [] reached mid
    then_next :
        {applied : ℕ} {q : Request} {rest : List Request} {p : Progress} {s next : Agent io}
        {proven : Bool}
        → io.is_abandoned s.world ≡ false
        → deliver io lib applied total q s ≡ (ok proven, next)
        → Delivered reached mid (suc applied) rest (note applied proven p) next
        → Delivered reached mid applied (q ∷ rest) p s

  -- The batch up to the request it stopped on, each of them delivered, and the stop.
  pub record IsStopped (applied : ℕ) (requests : List Request) (p : Progress) (s : Agent io)
      (cause : SozuError) (reached : Progress) (after : Agent io) : Type 0 where
    pub done : List Request
    pub q : Request
    pub rest : List Request
    pub mid : Agent io
    pub batch : requests ≡ done ++ q ∷ rest
    pub delivered : Delivered reached mid applied done p s
    pub stop : IsStop (applied + length done) q mid cause after

  -- What the loop's result says of the batch.
  abbrev pub Ended :
      ℕ
      → List Request
      → Progress
      → Agent io
      → Result SozuError (Unit {0}) × (Progress × Agent io)
      → Type 0
  Ended applied requests p s (ok u, (reached, after)) = Delivered reached after applied requests p s
  Ended applied requests p s (err cause, (reached, after)) =
      IsStopped applied requests p s cause reached after

  steps : (a b : ℕ) → suc a + b ≡ a + suc b
  steps a b = omega arith

  no_step : (a : ℕ) → a ≡ a + 0
  no_step a = omega arith

  later :
      (applied : ℕ) (q : Request) (requests : List Request) (p : Progress) (s next : Agent io)
      (proven : Bool) (cause : SozuError) (reached : Progress) (after : Agent io)
      → io.is_abandoned s.world ≡ false
      → deliver io lib applied total q s ≡ (ok proven, next)
      → IsStopped (suc applied) requests (note applied proven p) next cause reached after
      → IsStopped applied (q ∷ requests) p s cause reached after
  later applied q requests p s next proven cause reached after a d i = record {
    done = q ∷ i.done;
    q = i.q;
    rest = i.rest;
    mid = i.mid;
    batch = ap (λ r. q ∷ r) i.batch;
    delivered = then_next a d i.delivered;
    stop = subst (λ n. IsStop n i.q i.mid cause after) (steps applied (length i.done)) i.stop;
  }

  at_head :
      (applied : ℕ) (q : Request) (requests : List Request) (p : Progress) (s : Agent io)
      (cause : SozuError) (after : Agent io)
      → IsStop applied q s cause after
      → IsStopped applied (q ∷ requests) p s cause p after
  at_head applied q requests p s cause after stop = record {
    done = [];
    q = q;
    rest = requests;
    mid = s;
    batch = refl;
    delivered = finished;
    stop = subst (λ n. IsStop n q s cause after) (no_step applied) stop;
  }

  one_more :
      (applied : ℕ) (q : Request) (requests : List Request) (p : Progress) (s next : Agent io)
      (proven : Bool) (r : Result SozuError (Unit {0}) × (Progress × Agent io))
      → io.is_abandoned s.world ≡ false
      → deliver io lib applied total q s ≡ (ok proven, next)
      → Ended (suc applied) requests (note applied proven p) next r
      → Ended applied (q ∷ requests) p s r
  one_more applied q requests p s next proven (ok u, (reached, after)) a d e = then_next a d e
  one_more applied q requests p s next proven (err cause, (reached, after)) a d e =
      later applied q requests p s next proven cause reached after a d e

  -- A batch that is done delivered every request, in order. A batch that fails delivered the
  -- requests before one, in order, and stopped at that one: its caller had given up, or the
  -- request failed.
  pub apply_from-Ended :
      (applied : ℕ) (requests : List Request) (p : Progress) (s : Agent io)
      → Ended applied requests p s (apply_from io lib applied total requests p s)
  unfolding apply_from
  apply_from-Ended applied [] p s = finished
  apply_from-Ended applied (q ∷ requests) p s = elim (Bool-cases (io.is_abandoned s.world)) [
    | inl a ↦
        subst (Ended applied (q ∷ requests) p s)
          (sym (from_abandoned io lib total applied q requests p s a))
          (at_head applied q requests p s (abandoned applied total) s (gave_up a refl refl))
    | inr a ↦ elim (outcome (deliver io lib applied total q s)) [
      | inl (proven, next, d) ↦
          subst (Ended applied (q ∷ requests) p s)
            (sym (from_ok io lib total applied q requests p s next proven a d))
            (one_more applied q requests p s next proven _ a d
              (apply_from-Ended (suc applied) requests (note applied proven p) next))
      | inr (e, next, d) ↦
          subst (Ended applied (q ∷ requests) p s)
            (sym (from_err io lib total applied q requests p s next e a d))
            (at_head applied q requests p s e next (failed a d))
    ]
  ]
