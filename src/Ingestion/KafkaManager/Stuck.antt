-- ===== src/Ingestion/KafkaManager/Stuck.antt =====
-- internal/ingestion/kafka_manager.go: what `Reload` leaves, and the group that it leaves stopped.
use mathlib.Core.List.{List, [] as nil, ◌∷◌ as cons}
use alertmesh_new.Prelude.{
  String, Bool, true, false, Option, none, some, ◌&&◌, ◌≡◌, refl, sym, ap, ◌∙◌, subst, arith,
  str_eq, eq_refl, if-both, if-no, if_yes, lookup, contains, map, All, All-imp,
}
use alertmesh_new.Ingestion.KafkaFilter.{Libs}
use alertmesh_new.Ingestion.KafkaManager.{
  KafkaRow, Links, config_hash, same_hash, ReaderGroup, can_spawn, spawn_reader_group, Groups,
  stop_group, start_group, resolve_consumer_concurrency, renew_group, renew_groups, keep_wanted,
  reload_groups,
}
use alertmesh_new.Ingestion.KafkaManager.Reloads.{
  Serves, AllRunning, DifferentIds, AllServed, renew_groups-AllServed, lookup-keep_wanted,
  lookup-insert_own,
}

abbrev Wanted : List String → List KafkaRow → Type 0
Wanted want rows = All (λ row. contains want row.id ≡ true) rows

own-Wanted : (rows : List KafkaRow) → Wanted (map (λ row. row.id) rows) rows
own-Wanted nil = tt
own-Wanted (cons row rows) = (
  if_yes (str_eq row.id row.id) true (contains (map (λ r. r.id) rows) row.id) (eq_refl row.id),
  All-imp (λ r. contains (map (λ q. q.id) rows) r.id ≡ true)
      (λ r. contains (map (λ q. q.id) (cons row rows)) r.id ≡ true) rows
      (λ r h. if-both (λ b. b ≡ true) (str_eq row.id r.id) refl h) (own-Wanted rows),
)

lookup-wanted :
    (want : List String) (k : String) (groups : Groups)
    → contains want k ≡ true
    → lookup k (keep_wanted want groups) ≡ lookup k groups
lookup-wanted want k groups h =
    lookup-keep_wanted want k groups ∙ if_yes (contains want k) (lookup k groups) none h

keep_wanted-AllServed :
    (want : List String) (rows : List KafkaRow) (groups : Groups)
    → Wanted want rows
    → AllServed rows groups
    → AllServed rows (keep_wanted want groups)
keep_wanted-AllServed want nil groups w h = tt
keep_wanted-AllServed want (cons row rows) groups w h = (
  subst (Serves row) (sym (lookup-wanted want row.id groups w.0)) h.0,
  keep_wanted-AllServed want rows groups w.1 h.1,
)

-- If no group has been stopped and every enabled row can be started, then after a reload every row is
-- served by a running group of its configuration, and there is no other group.
pub reload_groups-AllServed :
    (lib : Libs) (lk : Links) (rows : List KafkaRow) (groups : Groups)
    → DifferentIds rows
    → All (λ row. can_spawn lib lk row ≡ true) rows
    → AllRunning groups
    → AllServed rows (reload_groups lib lk (some rows) groups)
      × ((k : String)
          → contains (map (λ row. row.id) rows) k ≡ false
          → lookup k (reload_groups lib lk (some rows) groups) ≡ none)
unfolding reload_groups
reload_groups-AllServed lib lk rows groups d ok running =
    let want = map (λ (row : KafkaRow). row.id) rows in
    let next = renew_groups lib lk rows groups in
    (
      keep_wanted-AllServed want rows next (own-Wanted rows)
          (renew_groups-AllServed lib lk rows groups d ok running),
      λ k h.
          lookup-keep_wanted want k next
          ∙ if-no (λ o. o ≡ none) (contains want k) (lookup k next) none h refl,
    )

reload_one :
    (lib : Libs) (lk : Links) (row : KafkaRow) (groups : Groups)
    → lookup row.id (reload_groups lib lk (some (cons row nil)) groups)
      ≡ lookup row.id (renew_group lib lk row (lookup row.id groups) groups)
unfolding reload_groups renew_groups
reload_one lib lk row groups =
    lookup-wanted (cons row.id nil) row.id (renew_group lib lk row (lookup row.id groups) groups)
      (if_yes (str_eq row.id row.id) true false (eq_refl row.id))

renew_group_fails :
    (lib : Libs) (lk : Links) (row : KafkaRow) (g : ReaderGroup) (groups : Groups)
    → same_hash g.hash (config_hash row) ≡ false
    → can_spawn lib lk row ≡ false
    → lookup row.id (renew_group lib lk row (some g) groups) ≡ some (record g { running = false })
unfolding renew_group start_group stop_group spawn_reader_group
renew_group_fails lib lk row g groups changed fails =
    if-no (λ (l : Groups). lookup row.id l ≡ some stopped) (same_hash g.hash (config_hash row))
      groups (start_group row.id (spawn_reader_group lib lk row) (stop_group row.id g groups))
      changed
      (if-no
        (λ (o : Option ReaderGroup).
          lookup row.id (start_group row.id o (stop_group row.id g groups)) ≡ some stopped)
        (can_spawn lib lk row) (some started) none fails (lookup-insert_own row.id stopped groups))
  where
    stopped : ReaderGroup
    stopped = record g { running = false }

    started : ReaderGroup
    started = record {
      ds_name = row.name;
      hash = config_hash row;
      workers = resolve_consumer_concurrency (lk.row_config row.config).consumer_concurrency;
      running = true;
    }

renew_group_same :
    (lib : Libs) (lk : Links) (row : KafkaRow) (g : ReaderGroup) (groups : Groups)
    → g.hash ≡ config_hash row
    → renew_group lib lk row (some g) groups ≡ groups
unfolding renew_group
renew_group_same lib lk row g groups e =
    if_yes (same_hash g.hash (config_hash row)) groups
      (start_group row.id (spawn_reader_group lib lk row) (stop_group row.id g groups))
      (subst (λ h. same_hash h (config_hash row) ≡ true) (sym e) itself)
  where
    both : (x y : Bool) → x ≡ true → y ≡ true → (x && y) ≡ true
    both x y h i = ground arith

    itself : same_hash (config_hash row) (config_hash row) ≡ true
    itself =
        both (str_eq row.endpoint row.endpoint) (str_eq row.config row.config)
          (eq_refl row.endpoint) (eq_refl row.config)

-- If the configuration of a running source is changed to one that cannot be started, and then changed
-- back, the reload finds the group under its old configuration and leaves it as it is: stopped.
pub reload_groups_stuck :
    (lib : Libs) (lk : Links) (old new : KafkaRow) (g : ReaderGroup) (groups : Groups)
    → new.id ≡ old.id
    → lookup old.id groups ≡ some g
    → g.hash ≡ config_hash old
    → same_hash g.hash (config_hash new) ≡ false
    → can_spawn lib lk new ≡ false
    → lookup old.id (
        reload_groups lib lk
          (some (cons old nil))
          (reload_groups lib lk (some (cons new nil)) groups))
      ≡ some (record g { running = false })
reload_groups_stuck lib lk old new g groups same e hash changed fails =
    reload_one lib lk old broken
    ∙ ap (λ o. lookup old.id (renew_group lib lk old o broken)) after
    ∙ ap (lookup old.id) (renew_group_same lib lk old stopped broken hash)
    ∙ after
  where
    stopped : ReaderGroup
    stopped = record g { running = false }

    broken : Groups
    broken = reload_groups lib lk (some (cons new nil)) groups

    found : lookup new.id groups ≡ some g
    found = ap (λ k. lookup k groups) same ∙ e

    after : lookup old.id broken ≡ some stopped
    after =
        ap (λ k. lookup k broken) (sym same)
        ∙ reload_one lib lk new groups
        ∙ ap (λ o. lookup new.id (renew_group lib lk new o groups)) found
        ∙ renew_group_fails lib lk new g groups changed fails
