-- ===== src/Engine/Pipeline/Outcome.antt =====
-- internal/engine/pipeline.go: what one call of `Process` leaves behind.
use alertmesh_new.Prelude.{
  ℕ, ◌+◌, ◌≤◌, String, true, Option, none, some, List, [], ◌∷◌, ◌++◌, Any, ◌≡◌, ◌≢◌, refl, ap, ◌∙◌,
  arith, eq_iff, eq_refl, Assoc,
}
use alertmesh_new.Engine.Alert.{RawAlert}
use alertmesh_new.Engine.Matcher.{Regexp}
use alertmesh_new.Engine.Router.{RouteDef, match}
use alertmesh_new.Engine.Inhibit.{track, is_inhibited}
use alertmesh_new.Engine.Inhibit.Active.{Pairs, track-is_inhibited}
use alertmesh_new.Engine.GroupKey.{Digest}
use alertmesh_new.Engine.Aggregate.{PendingGroup, next_pending, resolve, key_of}
use alertmesh_new.Engine.Aggregate.Shards.{pending, pending-add, key_of-labels}
use alertmesh_new.Engine.Router.Priority.{match-labels}
use alertmesh_new.Engine.Pipeline.{Pipeline, received, resolved, process}
use alertmesh_new.Engine.Pipeline.Filing.{passes, filing_key, process_pass}

module _ (rx : Regexp) (dg : Digest) where
  -- A firing alert counts as an inhibition source for the inhibitor's TTL, also if it is dropped as
  -- a duplicate or silenced: until then every group that some rule pairs it with is inhibited.
  pub process-is_inhibited :
      (p : Pipeline) (t now : ℕ) (alert : RawAlert) (labels : Assoc String)
      → alert.status ≢ "resolved"
      → now ≤ t + p.inhibitor.ttl
      → Any (Pairs rx alert.labels labels) p.inhibitor.rules
      → is_inhibited rx (process rx dg p t alert).0.inhibitor now labels ≡ true
  process-is_inhibited p t now alert labels firing live pairs =
      rw (inhibitor-process p t alert firing)
        (track-is_inhibited rx p.inhibitor t now alert labels live pairs)
    where
      inhibitor-process :
          (p : Pipeline) (t : ℕ) (alert : RawAlert)
          → alert.status ≢ "resolved"
          → (process rx dg p t alert).0.inhibitor ≡ track rx p.inhibitor t alert
      inhibitor-process p t alert h =
          unfold process in ground (arith, eq_iff alert.status "resolved")

  filing_key-labels :
      (p : Pipeline) (a b : RawAlert)
      → a.labels ≡ b.labels
      → filing_key rx dg p a ≡ filing_key rx dg p b
  filing_key-labels p a b e =
      key_of-labels rx dg p.aggregator a b (match rx p.routes a) e
      ∙ ap (key_of rx dg p.aggregator b) (match-labels rx p.routes a b e)

  -- The incident layer is told of a resolved alert under the key of the group that a firing alert
  -- with the same labels joins: a resolved alert changes nothing and is reported with some key, and
  -- after a firing alert that passes, the group pending under this key has it as its last alert.
  pub process-resolved_key :
      (p : Pipeline) (t now : ℕ) (r a : RawAlert)
      → r.labels ≡ a.labels
      → r.status ≡ "resolved"
      → p.on_resolved ≡ true
      → passes rx p now a ≡ true
      → (key : String) × (process rx dg p t r ≡ (p, received r.source ∷ resolved r key ∷ []))
        × (pg : PendingGroup) × (pending dg (process rx dg p now a).0.aggregator key ≡ some pg)
        × (earlier : List RawAlert) × (pg.group.alerts ≡ earlier ++ a ∷ [])
  process-resolved_key p t now r a same done there pass =
      let key = filing_key rx dg p r in
      let route = match rx p.routes a in
      let o = pending dg p.aggregator key in
      let wait = (resolve rx p.aggregator a route).1 in
      (
        key,
        resolved_event p t r done there,
        next_pending o now wait key a route,
        filed,
        earlier o,
        joins o now wait key route,
      )
    where
      resolved_event :
          (p : Pipeline) (t : ℕ) (r : RawAlert)
          → r.status ≡ "resolved"
          → p.on_resolved ≡ true
          → process rx dg p t r ≡ (p, received r.source ∷ resolved r (filing_key rx dg p r) ∷ [])
      resolved_event p t r d o = unfold process in ground (arith, eq_iff r.status "resolved")

      filed :
          pending dg (process rx dg p now a).0.aggregator (filing_key rx dg p r)
          ≡ some (
              next_pending
                (pending dg p.aggregator (filing_key rx dg p r))
                now
                (resolve rx p.aggregator a (match rx p.routes a)).1
                (filing_key rx dg p r)
                a
                (match rx p.routes a))
      filed =
          rw
            (
              filing_key-labels p r a same,
              process_pass rx dg p now a pass,
              pending-add rx dg p.aggregator now a (match rx p.routes a) (filing_key rx dg p a),
              eq_refl,
            )
            refl

      earlier : Option PendingGroup → List RawAlert
      earlier none = []
      earlier (some pg) = pg.group.alerts

      joins :
          (o : Option PendingGroup) (now wait : ℕ) (key : String) (route : Option RouteDef)
          → (next_pending o now wait key a route).group.alerts ≡ earlier o ++ a ∷ []
      joins none now wait key route = unfold next_pending in refl
      joins (some pg) now wait key route = unfold next_pending in refl
