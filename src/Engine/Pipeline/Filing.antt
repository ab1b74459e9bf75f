-- ===== src/Engine/Pipeline/Filing.antt =====
-- internal/engine/pipeline.go against its contract: a bucket of alerts for each group key, to which
-- a passing alert is added, and which its timer empties. Any sequence of alerts, timers and reloads.
use alertmesh_new.Prelude.{
  ℕ, String, Bool, true, false, Option, none, some, List, [], ◌∷◌, ◌++◌, ◌≡◌, refl, ap, sym, subst,
  ◌∙◌, arith, eq_iff, eq_refl, str_eq, if◌then◌else◌, not, ◌&&◌, Bool-cases, Option-cases, inl, inr,
  lookup,
}
use alertmesh_new.Engine.Alert.{RawAlert}
use alertmesh_new.Engine.Matcher.{Regexp}
use alertmesh_new.Engine.Router.{RouteDef, match}
use alertmesh_new.Engine.Silence.{is_silenced}
use alertmesh_new.Engine.Dedup.{is_duplicate}
use alertmesh_new.Engine.Inhibit.{is_inhibited}
use alertmesh_new.Engine.GroupKey.{Digest}
use alertmesh_new.Engine.Aggregate.{
  AlertGroup, PendingGroup, open_group, append_alert, next_pending, resolve, key_of, add,
  load_aggregations,
}
use alertmesh_new.Engine.Aggregate.Growth.{grow, IsGroupOf, grow-IsGroupOf}
use alertmesh_new.Engine.Aggregate.Shards.{pending, pending-add, pending-take_group}
use alertmesh_new.Engine.Pipeline.{
  Pipeline, Event, dropped, incident, by_inhibit, process, with_route, flush, fire, Tables,
  load_rules, new_pipeline,
}

pub data Input : Type 0 where
  arrive : ℕ → RawAlert → Input
  timer : ℕ → String → Input
  reload : ℕ → Tables → Input

-- The alerts of each key that wait for its timer, in the order of their arrival.
abbrev pub Buckets : Type 0
Buckets = String → List RawAlert

-- Whether an alert is to be filed: it fires, is no duplicate, and is not silenced.
abbrev pub passes : Regexp → Pipeline → ℕ → RawAlert → Bool
passes rx p now alert =
    not (str_eq alert.status "resolved")
    && not (is_duplicate p.dedup now alert.fingerprint).1
    && not (is_silenced rx p.silences now alert)

-- The key under which the pipeline files an alert at present.
abbrev pub filing_key : Regexp → Digest → Pipeline → RawAlert → String
filing_key rx dg p alert = key_of rx dg p.aggregator alert (match rx p.routes alert)

module _ (rx : Regexp) (dg : Digest) where
  unfoldable pub step : Pipeline → Input → Pipeline
  step p (arrive now alert) = (process rx dg p now alert).0
  step p (timer now key) = (fire rx dg p now key).0
  step p (reload now db) = load_rules rx now db p

  unfoldable pub run : Pipeline → List Input → Pipeline
  run p [] = p
  run p (i ∷ is) = run (step p i) is

  -- The contract, beside a run of the program, which it asks only which alerts pass and their keys.
  unfoldable pub spec_step : Pipeline → Buckets → Input → Buckets
  spec_step p b (arrive now alert) k =
      if passes rx p now alert
      then (if str_eq (filing_key rx dg p alert) k then b k ++ alert ∷ [] else b k)
      else b k
  spec_step p b (timer now key) k = if str_eq key k then [] else b k
  spec_step p b (reload now db) k = b k

  unfoldable pub spec_run : Pipeline → Buckets → List Input → Buckets
  spec_run p b [] = b
  spec_run p b (i ∷ is) = spec_run (step p i) (spec_step p b i) is

-- The pending group is the one that the alerts of the bucket build.
abbrev pub IsBucket : String → Option PendingGroup → List RawAlert → Type 0
IsBucket k none xs = xs ≡ []
IsBucket k (some pg) [] = ⊥
IsBucket k (some pg) (a ∷ rest) = pg.group ≡ grow (open_group k a) rest

grow-append :
    (g : AlertGroup) (xs : List RawAlert) (x : RawAlert)
    → grow g (xs ++ x ∷ []) ≡ append_alert (grow g xs) x
unfolding grow
grow-append g [] x = refl
grow-append g (y ∷ xs) x = grow-append (append_alert g y) xs x

next_pending-IsBucket :
    (k : String) (o : Option PendingGroup) (xs : List RawAlert) (now wait : ℕ) (alert : RawAlert)
    (route : Option RouteDef)
    → IsBucket k o xs
    → IsBucket k (some (next_pending o now wait k alert route)) (xs ++ alert ∷ [])
unfolding next_pending grow
next_pending-IsBucket k none [] now wait alert route h = refl
next_pending-IsBucket k none (x ∷ xs) now wait alert route h = cc
next_pending-IsBucket k (some pg) [] now wait alert route h = absurd h
next_pending-IsBucket k (some pg) (x ∷ xs) now wait alert route h =
    ap (λ g. append_alert g alert) h ∙ sym (grow-append (open_group k x) xs alert)

module _ (rx : Regexp) (dg : Digest) where
  abbrev pub Holds : Pipeline → Buckets → Type 0
  Holds p b = (k : String) → IsBucket k (pending dg p.aggregator k) (b k)

  pub process_pass :
      (p : Pipeline) (now : ℕ) (alert : RawAlert)
      → passes rx p now alert ≡ true
      → (process rx dg p now alert).0.aggregator
        ≡ add rx dg p.aggregator now alert (match rx p.routes alert)
  unfolding process
  process_pass p now alert h = ground arith

  pub process_drop :
      (p : Pipeline) (now : ℕ) (alert : RawAlert)
      → passes rx p now alert ≡ false
      → (process rx dg p now alert).0.aggregator ≡ p.aggregator
  unfolding process
  process_drop p now alert h = ground arith

  arrive-Holds :
      (p : Pipeline) (b : Buckets) (now : ℕ) (alert : RawAlert)
      → Holds p b
      → Holds (step rx dg p (arrive now alert)) (spec_step rx dg p b (arrive now alert))
  unfolding step spec_step
  arrive-Holds p b now alert h k = elim (Bool-cases (passes rx p now alert)) [
    | inr drop ↦ rw (process_drop p now alert drop, drop) (h k)
    | inl pass ↦
        let key = filing_key rx dg p alert in
        let route = match rx p.routes alert in
        rw (process_pass p now alert pass, pass, pending-add rx dg p.aggregator now alert route k)
          (elim (Bool-cases (str_eq key k)) [
            | inr other ↦ rw other (h k)
            | inl same ↦ rw same (
                subst
                  (λ q.
                    IsBucket q
                      (some (
                        next_pending (pending dg p.aggregator key) now
                          (resolve rx p.aggregator alert route).1 key alert route))
                      (b q ++ alert ∷ []))
                  ((eq_iff key k).0 same)
                  (next_pending-IsBucket key (pending dg p.aggregator key) (b key) now _ alert route
                    (h key)))
          ])
  ]

  timer-Holds :
      (p : Pipeline) (b : Buckets) (now : ℕ) (key : String)
      → Holds p b
      → Holds (step rx dg p (timer now key)) (spec_step rx dg p b (timer now key))
  unfolding step spec_step fire
  timer-Holds p b now key h k =
      rw ((pending-take_group dg p.aggregator key k).1)
        (elim (Bool-cases (str_eq key k)) [ inl e ↦ rw e refl | inr e ↦ rw e (h k) ])

  reload-Holds :
      (p : Pipeline) (b : Buckets) (now : ℕ) (db : Tables)
      → Holds p b
      → Holds (step rx dg p (reload now db)) (spec_step rx dg p b (reload now db))
  unfolding step spec_step load_rules load_aggregations pending
  reload-Holds p b now db h k = elim (Option-cases db.aggregations) [
    | inl e ↦ rw e (h k)
    | inr (rows, e) ↦ rw e (h k)
  ]

  step-Holds :
      (p : Pipeline) (b : Buckets) (i : Input)
      → Holds p b
      → Holds (step rx dg p i) (spec_step rx dg p b i)
  step-Holds p b (arrive now alert) h = arrive-Holds p b now alert h
  step-Holds p b (timer now key) h = timer-Holds p b now key h
  step-Holds p b (reload now db) h = reload-Holds p b now db h

  run-Holds :
      (is : List Input) (p : Pipeline) (b : Buckets)
      → Holds p b
      → Holds (run rx dg p is) (spec_run rx dg p b is)
  unfolding run spec_run
  run-Holds [] p b h = h
  run-Holds (i ∷ is) p b h =
      run-Holds is (step rx dg p i) (spec_step rx dg p b i) (step-Holds p b i h)

  new_pipeline-Holds :
      (now : ℕ) (db : Tables) (on_incident on_resolved : Bool)
      → Holds (new_pipeline rx now db on_incident on_resolved) (λ k. [])
  unfolding new_pipeline load_rules load_aggregations pending lookup
  new_pipeline-Holds now db on_incident on_resolved k = elim (Option-cases db.aggregations) [
    | inl e ↦ rw e refl
    | inr (rows, e) ↦ rw e refl
  ]

  with_route-IsGroupOf :
      (key : String) (a : RawAlert) (rest : List RawAlert) (pg : PendingGroup)
      → IsGroupOf key a rest pg.group
      → IsGroupOf key a rest (with_route pg)
  unfolding with_route
  with_route-IsGroupOf key a rest pg h = elim (Option-cases pg.route) [
    | inl e ↦ rw e h
    | inr (r, e) ↦ rw e (record {
      alerts = h.alerts;
      group_key = h.group_key;
      labels = h.labels;
      data_source_id = h.data_source_id;
      level = h.level;
      above = h.above;
      worst = h.worst;
    })
  ]

  -- What the timer of a key does with the alerts of its bucket.
  abbrev pub Delivers : Pipeline → ℕ → String → List RawAlert → List Event → Type 0
  Delivers p now key [] events = events ≡ []
  Delivers p now key (a ∷ rest) events =
      (g : AlertGroup) × IsGroupOf key a rest g
      × (events ≡ (
          if is_inhibited rx p.inhibitor now a.labels
          then dropped by_inhibit ∷ []
          else if p.on_incident
          then incident g ∷ []
          else []))

  flush_if : Pipeline → ℕ → Option PendingGroup → List Event
  flush_if p now none = []
  flush_if p now (some pg) = flush rx p now pg

  events-fire :
      (p : Pipeline) (now : ℕ) (key : String)
      → (fire rx dg p now key).1 ≡ flush_if p now (pending dg p.aggregator key)
  unfolding fire flush_if
  events-fire p now key = ground (arith, (pending-take_group dg p.aggregator key key).0)

  flush_if-Delivers :
      (p : Pipeline) (now : ℕ) (key : String) (o : Option PendingGroup) (xs : List RawAlert)
      → IsBucket key o xs
      → Delivers p now key xs (flush_if p now o)
  unfolding flush_if flush
  flush_if-Delivers p now key none [] h = refl
  flush_if-Delivers p now key none (a ∷ rest) h = cc
  flush_if-Delivers p now key (some pg) [] h = absurd h
  flush_if-Delivers p now key (some pg) (a ∷ rest) h =
      let g = subst (λ x. IsGroupOf key a rest x) (sym h) (grow-IsGroupOf key a rest) in
      (with_route pg, with_route-IsGroupOf key a rest pg g, rw g.labels refl)

  -- After any sequence of alerts, timers and reloads, a timer delivers exactly the alerts of its
  -- key that passed since the key's last timer, in order: nothing if there is none; else one group
  -- of all of them (`IsGroupOf`), handed to the incident callback if there is one, or dropped if the
  -- labels of its first alert are inhibited. Then no alert of the key is pending.
  pub fire-Delivers :
      (t now : ℕ) (db : Tables) (on_incident on_resolved : Bool) (is : List Input) (key : String)
      → let start = new_pipeline rx t db on_incident on_resolved in
        let p = run rx dg start is in
        Delivers p now key (spec_run rx dg start (λ k. []) is key) (fire rx dg p now key).1
        × (pending dg (fire rx dg p now key).0.aggregator key ≡ none)
  unfolding fire
  fire-Delivers t now db on_incident on_resolved is key =
      let start = new_pipeline rx t db on_incident on_resolved in
      let p = run rx dg start is in
      let bucket = spec_run rx dg start (λ k. []) is key in
      (
        subst (λ events. Delivers p now key bucket events) (sym (events-fire p now key))
            (flush_if-Delivers p now key (pending dg p.aggregator key) bucket
              (run-Holds is start (λ k. []) (new_pipeline-Holds t db on_incident on_resolved) key)),
        (pending-take_group dg p.aggregator key key).1
            ∙ ap (λ t. if t then none else pending dg p.aggregator key) (eq_refl key),
      )
