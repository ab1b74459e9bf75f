-- ===== src/Engine/Aggregate/Shards.antt =====
-- internal/engine/aggregation.go: the sixteen shards behave as one map from group keys to groups.
use alertmesh_new.Prelude.{
  ℕ, String, Option, none, some, List, [], ◌∷◌, lookup, lookup-insert, lookup-delete, ◌≡◌, refl,
  arith, eq_iff, str_eq, if◌then◌else◌,
}
use alertmesh_new.Engine.Alert.{RawAlert}
use alertmesh_new.Engine.Matcher.{Regexp}
use alertmesh_new.Engine.Router.{RouteDef}
use alertmesh_new.Engine.GroupKey.{Digest}
use alertmesh_new.Engine.Aggregate.{
  AggPolicyDef, PendingGroup, Aggregator, resolve_in, resolve, shard_for, set_shard, next_pending,
  key_of, add, take_group,
}

-- The abstract view: the pending group of a key.
unfoldable pub pending : Digest → Aggregator → String → Option PendingGroup
pending dg a key = lookup key (a.shards (shard_for dg key))

module _ (rx : Regexp) (dg : Digest) where
  -- `Add` writes one entry of the map, the alert's key, and changes no other.
  pub pending-add :
      (a : Aggregator) (now : ℕ) (alert : RawAlert) (route : Option RouteDef) (k : String)
      → pending dg (add rx dg a now alert route) k ≡ (
          if str_eq (key_of rx dg a alert route) k
          then some (
              next_pending
                (pending dg a (key_of rx dg a alert route))
                now
                (resolve rx a alert route).1
                (key_of rx dg a alert route)
                alert
                route)
          else pending dg a k)
  unfolding pending add set_shard
  pending-add a now alert route k = ground (
    arith,
    eq_iff (key_of rx dg a alert route) k,
    lookup-insert (key_of rx dg a alert route) k
        (next_pending (pending dg a (key_of rx dg a alert route)) now (resolve rx a alert route).1
          (key_of rx dg a alert route) alert route)
        (a.shards (shard_for dg (key_of rx dg a alert route))),
  )

pub pending-take_group :
    (dg : Digest) (a : Aggregator) (key k : String)
    → ((take_group dg a key).1 ≡ pending dg a key)
      × (pending dg (take_group dg a key).0 k ≡ (if str_eq key k then none else pending dg a k))
unfolding pending take_group set_shard
pending-take_group dg a key k =
    ground (arith, eq_iff key k, lookup-delete key k (a.shards (shard_for dg key)))

module _ (rx : Regexp) (dg : Digest) where
  resolve_in-labels :
      (ps : List AggPolicyDef) (wait : ℕ) (a b : RawAlert) (route : Option RouteDef)
      → a.labels ≡ b.labels
      → resolve_in rx ps wait a route ≡ resolve_in rx ps wait b route
  unfolding resolve_in
  resolve_in-labels [] wait a b route e = refl
  resolve_in-labels (p ∷ ps) wait a b route e =
      ground (arith, resolve_in-labels ps wait a b route e)

  -- The key depends on the labels and the route alone.
  pub key_of-labels :
      (g : Aggregator) (a b : RawAlert) (route : Option RouteDef)
      → a.labels ≡ b.labels
      → key_of rx dg g a route ≡ key_of rx dg g b route
  unfolding key_of resolve
  key_of-labels g a b route e = cc (e, resolve_in-labels g.policies g.group_wait a b route e)
