-- ===== src/Translator/Replay/Fold.antt =====
-- The replay of a whole list of requests (`apply_acknowledged`, crates/translator/src/replay.rs),
-- for one kind of object.
use sozu_gateway.Prelude.{
  ℕ, suc, ◌≡◌, inl, inr, refl, ap, ◌∙◌, true, not, Option, none, some, List, [], ◌∷◌, arith,
}
use sozu_gateway.Prelude.Tests.{Option-cases, ltb}
use sozu_gateway.Prelude.Eq.{Eq, ◌==◌}
use sozu_gateway.Prelude.Lists.{all, enumerate_from, all-filter, all-filter_self}
use sozu_gateway.Prelude.Texts.{Text}
use sozu_gateway.Ir.RouteKey.{Show}
use sozu_gateway.Wire.{Request, RequestType, RequestHttpFrontend}
use sozu_gateway.Translator.Certificates.{Pem}
use sozu_gateway.Translator.Replay.{Replay, apply, apply_kind, apply_all, insert_step}
use sozu_gateway.Translator.Replay.Groups.{Group, Keyed, set, remove, insert, wanted}
use sozu_gateway.Translator.Replay.Kept.{
  Event, put, drop, gone, skip, act, act_removed, settled, kept, timely, kept-act,
}
use sozu_gateway.Translator.Replay.Tidy.{tidy, keyed_event, tidy-act, all-upsert}

steps_suc :
    (step : ℕ) (m : List (Text × ℕ))
    → all (λ r. ltb r.1 step) m ≡ true
    → all (λ r. ltb r.1 (suc step)) m ≡ true
steps_suc step [] h = refl
steps_suc step (r ∷ m) h = ground (arith, steps_suc step m)

module _ {K T : Type 0} ⦃e : Eq K⦄ where
  since_suc :
      (step : ℕ) (m : List (K × Group T))
      → all (λ g. ltb g.1.since step) m ≡ true
      → all (λ g. ltb g.1.since (suc step)) m ≡ true
  since_suc step [] h = refl
  since_suc step (g ∷ m) h = ground (arith, since_suc step m)

  timely-act :
      (key : T → K) (step : ℕ) (removed : List (Text × ℕ)) (event : Event K T) (s : Keyed K T)
      → timely step removed s ≡ true
      → timely (suc step) (act_removed step event removed) (act step event s) ≡ true
  unfolding set remove insert insert_step
  timely-act key step removed (put k none) s h =
      ground (arith, since_suc step s.groups, steps_suc step removed)
  timely-act key step removed (put k (some ts)) s h =
      let made : Group T = record { since = step; objects = enumerate_from s.next ts } in
      ground (
        arith,
        all-upsert key (λ g. ltb g.1.since step) (λ g. ltb g.1.since (suc step)) k (λ v. made) made
            (λ g u. ground arith) (ground arith) (since_suc step) s.groups,
        steps_suc step removed,
      )
  timely-act key step removed (drop k) s h = ground (
    arith,
    since_suc step s.groups,
    all-filter (λ g. ltb g.1.since (suc step)) (λ g. not (g.0 == k)) s.groups,
    steps_suc step removed,
  )
  timely-act key step removed (gone id) s h =
      ground (arith, since_suc step s.groups, steps_suc step removed)
  timely-act key step removed skip s h =
      ground (arith, since_suc step s.groups, steps_suc step removed)

  -- What the requests leave under a key, one after the other.
  abbrev pub settled_all :
      (T → Option Text) → (Request → Event K T) → K → List Request → List T → List T
  settled_all names event k [] held = held
  settled_all names event k (r ∷ rs) held =
      settled_all names event k rs (settled names k (event r) held)

  -- What is wanted under a key has that key.
  pub wanted_keyed :
      (key : T → K) (objects : List T) (k : K)
      → keyed_event key (put k (wanted key objects k)) ≡ true
  unfolding wanted
  wanted_keyed key objects k = ground (arith, all-filter_self (λ o. key o == k) objects)

-- An event of a kind of request.
abbrev pub event_of : {K T : Type 0} → (RequestType → Event K T) → Request → Event K T
event_of event r = elim r.request_type [ none ↦ skip | some kind ↦ event kind ]

module _ (show : Show) (display : RequestHttpFrontend → Text) (pem : Pem) {K T : Type 0} ⦃e : Eq K⦄
    (key : T → K) (names : T → Option Text) (part : Replay → Keyed K T)
    (wants : Replay → K → Option (List T)) (event : (K → Option (List T)) → RequestType → Event K T)
    (part_step : (step : ℕ) (kind : RequestType) (s : Replay)
      → part (apply_kind show display pem step kind s) ≡ act step (event (wants s) kind) (part s))
    (removed_step : (step : ℕ) (kind : RequestType) (s : Replay)
      → (apply_kind show display pem step kind s).removed_clusters
        ≡ act_removed step (event (wants s) kind) s.removed_clusters)
    (wants_step : (step : ℕ) (kind : RequestType) (s : Replay)
      → wants (apply_kind show display pem step kind s) ≡ wants s)
    (w : K → Option (List T))
    (keyed : (kind : RequestType) → keyed_event key (event w kind) ≡ true) where
  -- The state before the request of a step.
  pub record IsReady (step : ℕ) (s : Replay) : Type 0 where
    pub same : wants s ≡ w
    pub neat : tidy key (part s).groups ≡ true
    pub early : timely step s.removed_clusters (part s) ≡ true

  part_eq :
      (step : ℕ) (kind : RequestType) (s : Replay)
      → IsReady step s
      → part (apply_kind show display pem step kind s) ≡ act step (event w kind) (part s)
  part_eq step kind s r = part_step step kind s ∙ ap (λ x. act step (event x kind) (part s)) r.same

  removed_eq :
      (step : ℕ) (kind : RequestType) (s : Replay)
      → IsReady step s
      → (apply_kind show display pem step kind s).removed_clusters
        ≡ act_removed step (event w kind) s.removed_clusters
  removed_eq step kind s r =
      removed_step step kind s ∙ ap (λ x. act_removed step (event x kind) s.removed_clusters) r.same

  kind-IsReady :
      (step : ℕ) (kind : RequestType) (s : Replay)
      → IsReady step s
      → IsReady (suc step) (apply_kind show display pem step kind s)
  kind-IsReady step kind s r = record {
    same = wants_step step kind s ∙ r.same;
    neat =
        rw (part_eq step kind s r) (tidy-act key step (event w kind) (part s) (keyed kind) r.neat);
    early =
        rw (part_eq step kind s r, removed_eq step kind s r)
          (timely-act key step s.removed_clusters (event w kind) (part s) r.early);
  }

  later-IsReady : (step : ℕ) (s : Replay) → IsReady step s → IsReady (suc step) s
  later-IsReady step s r = record {
    same = r.same;
    neat = r.neat;
    early = timely-act key step s.removed_clusters skip (part s) r.early;
  }

  abbrev pub kept_at : Replay → K → List T
  kept_at s k = kept names s.removed_clusters (part s) k

  kind_kept :
      (step : ℕ) (kind : RequestType) (s : Replay) (k : K)
      → IsReady step s
      → kept_at (apply_kind show display pem step kind s) k
        ≡ settled names k (event w kind) (kept_at s k)
  kind_kept step kind s k r =
      rw (part_eq step kind s r, removed_eq step kind s r)
        (kept-act names step s.removed_clusters (event w kind) (part s) k r.early)

  pub all_kept :
      (step : ℕ) (rs : List Request) (s : Replay)
      → IsReady step s
      → (tidy key (part (apply_all show display pem step rs s)).groups ≡ true)
        × ((k : K)
            → kept_at (apply_all show display pem step rs s) k
              ≡ settled_all names (event_of (event w)) k rs (kept_at s k))
  unfolding apply_all apply
  all_kept step [] s r = (r.neat, λ k. refl)
  all_kept step (q ∷ rs) s r = elim (Option-cases q.request_type) [
    | inl e ↦ rw e (all_kept (suc step) rs s (later-IsReady step s r))
    | inr (kind, e) ↦
        let next = apply_kind show display pem step kind s in
        let (neat, held) = all_kept (suc step) rs next (kind-IsReady step kind s r) in
        rw e (
          neat,
          λ k.
              held k ∙ ap (settled_all names (event_of (event w)) k rs) (kind_kept step kind s k r),
        )
  ]
