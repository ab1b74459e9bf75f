-- ===== src/Ingestion/KafkaManager/Reloads.antt =====
-- internal/ingestion/kafka_manager.go: the groups of readers after a reload.
use mathlib.Core.List.{List, [] as nil, ◌∷◌ as cons}
use alertmesh_new.Prelude.{
  String, Bool, true, false, Option, none, some, ◌&&◌, ◌≡◌, refl, sym, ap, ◌∙◌, subst, arith,
  str_eq, eq_iff, eq_refl, if◌then◌else◌, if-both, Assoc, lookup, insert, lookup-insert, contains,
  map, All,
}
use mathlib.Core.Option.{some-injective}
use alertmesh_new.Ingestion.KafkaFilter.{Libs}
use alertmesh_new.Ingestion.KafkaManager.{
  KafkaRow, Links, Signature, config_hash, same_hash, ReaderGroup, can_spawn, spawn_reader_group,
  Groups, stop_group, start_group, resolve_consumer_concurrency, renew_group, renew_groups,
  keep_wanted,
}

pub lookup-insert_own :
    {V : Type 0} (k : String) (v : V) (table : Assoc V) → lookup k (insert k v table) ≡ some v
lookup-insert_own k v table =
    lookup-insert k k v table ∙ ap (λ b. if b then some v else lookup k table) (eq_refl k)

lookup-insert_other :
    {V : Type 0} (k j : String) (v : V) (table : Assoc V)
    → str_eq k j ≡ false
    → lookup j (insert k v table) ≡ lookup j table
lookup-insert_other k j v table ne =
    lookup-insert k j v table ∙ ap (λ b. if b then some v else lookup j table) ne

pub lookup-keep_wanted :
    (want : List String) (k : String) (groups : Groups)
    → lookup k (keep_wanted want groups) ≡ (if contains want k then lookup k groups else none)
unfolding lookup keep_wanted
lookup-keep_wanted want k nil = ground arith
lookup-keep_wanted want k (cons (id, g) groups) =
    ground (arith, lookup-keep_wanted want k groups, eq_iff id k)

-- A group that runs under the configuration of a row.
abbrev pub Serves : KafkaRow → Option ReaderGroup → Type 0
Serves row o = (g : ReaderGroup) × (o ≡ some g) × (g.hash ≡ config_hash row) × (g.running ≡ true)

same_hash-eq : (a b : Signature) → same_hash a b ≡ true → a ≡ b
same_hash-eq (a, c) (b, d) e =
    ap (λ x. (x, c)) ((eq_iff a b).0 (and_first (str_eq a b) (str_eq c d) e))
    ∙ ap (λ x. (b, x)) ((eq_iff c d).0 (and_second (str_eq a b) (str_eq c d) e))
  where
    and_first : (x y : Bool) → (x && y) ≡ true → x ≡ true
    and_first x y h = ground arith

    and_second : (x y : Bool) → (x && y) ≡ true → y ≡ true
    and_second x y h = ground arith

-- No group in the map has been stopped.
abbrev pub AllRunning : Groups → Type 0
AllRunning groups = (k : String) (g : ReaderGroup) → lookup k groups ≡ some g → g.running ≡ true

module _ (lib : Libs) (lk : Links) where
  spawn_reader_group-Serves :
      (row : KafkaRow) → can_spawn lib lk row ≡ true → Serves row (spawn_reader_group lib lk row)
  unfolding spawn_reader_group
  spawn_reader_group-Serves row e =
      subst (λ b. Serves row (if b then some group else none)) (sym e) (group, refl, refl, refl)
    where
      group : ReaderGroup
      group = record {
        ds_name = row.name;
        hash = config_hash row;
        workers = resolve_consumer_concurrency (lk.row_config row.config).consumer_concurrency;
        running = true;
      }

  start_group-Serves :
      (row : KafkaRow) (groups : Groups)
      → can_spawn lib lk row ≡ true
      → Serves row (lookup row.id (start_group row.id (spawn_reader_group lib lk row) groups))
  unfolding start_group
  start_group-Serves row groups e =
      let s = spawn_reader_group-Serves row e in
      subst (λ o. Serves row (lookup row.id (start_group row.id o groups))) (sym s.1)
        (s.0, lookup-insert_own row.id s.0 groups, s.2, s.3)

  renew_group-Serves :
      (row : KafkaRow) (groups : Groups) (o : Option ReaderGroup)
      → lookup row.id groups ≡ o
      → can_spawn lib lk row ≡ true
      → AllRunning groups
      → Serves row (lookup row.id (renew_group lib lk row o groups))
  unfolding renew_group
  renew_group-Serves row groups none e ok running = start_group-Serves row groups ok
  renew_group-Serves row groups (some g) e ok running =
      by_hash (same_hash g.hash (config_hash row)) refl
    where
      by_hash :
          (b : Bool)
          → same_hash g.hash (config_hash row) ≡ b
          → Serves row (
              lookup row.id (
                if b
                then groups
                else start_group row.id
                    (spawn_reader_group lib lk row)
                    (stop_group row.id g groups)))
      by_hash true h = (g, e, same_hash-eq g.hash (config_hash row) h, running row.id g e)
      by_hash false h = start_group-Serves row (stop_group row.id g groups) ok

  lookup-start_group :
      (id k : String) (o : Option ReaderGroup) (groups : Groups)
      → str_eq id k ≡ false
      → lookup k (start_group id o groups) ≡ lookup k groups
  unfolding start_group
  lookup-start_group id k none groups ne = refl
  lookup-start_group id k (some g) groups ne = lookup-insert_other id k g groups ne

  lookup-renew_group :
      (row : KafkaRow) (k : String) (o : Option ReaderGroup) (groups : Groups)
      → str_eq row.id k ≡ false
      → lookup k (renew_group lib lk row o groups) ≡ lookup k groups
  unfolding renew_group stop_group
  lookup-renew_group row k none groups ne =
      lookup-start_group row.id k (spawn_reader_group lib lk row) groups ne
  lookup-renew_group row k (some g) groups ne =
      if-both (λ (l : Groups). lookup k l ≡ lookup k groups) (same_hash g.hash (config_hash row))
        refl
        (lookup-start_group row.id k (spawn_reader_group lib lk row)
            (insert row.id (record g { running = false }) groups) ne
          ∙ lookup-insert_other row.id k (record g { running = false }) groups ne)

  renew_group-AllRunning :
      (row : KafkaRow) (groups : Groups)
      → can_spawn lib lk row ≡ true
      → AllRunning groups
      → AllRunning (renew_group lib lk row (lookup row.id groups) groups)
  renew_group-AllRunning row groups ok running k g e = by_id (str_eq row.id k) refl
    where
      by_id : (b : Bool) → str_eq row.id k ≡ b → g.running ≡ true
      by_id true same =
          let s = renew_group-Serves row groups (lookup row.id groups) refl ok running in
          let here =
            ap (λ i. lookup i (renew_group lib lk row (lookup row.id groups) groups))
              ((eq_iff row.id k).0 same) in
          ap (λ x. x.running) (some-injective g s.0 (sym e ∙ sym here ∙ s.1)) ∙ s.3
      by_id false other =
          running k g (sym (lookup-renew_group row k (lookup row.id groups) groups other) ∙ e)

  lookup-renew_groups :
      (rows : List KafkaRow) (k : String) (groups : Groups)
      → contains (map (λ row. row.id) rows) k ≡ false
      → lookup k (renew_groups lib lk rows groups) ≡ lookup k groups
  unfolding renew_groups
  lookup-renew_groups nil k groups h = refl
  lookup-renew_groups (cons row rows) k groups h =
      lookup-renew_groups rows k (renew_group lib lk row (lookup row.id groups) groups)
        (rest (str_eq row.id k) (contains (map (λ r. r.id) rows) k) h)
      ∙ lookup-renew_group row k (lookup row.id groups) groups
          (first (str_eq row.id k) (contains (map (λ r. r.id) rows) k) h)
    where
      rest : (x y : Bool) → (if x then true else y) ≡ false → y ≡ false
      rest x y e = ground arith

      first : (x y : Bool) → (if x then true else y) ≡ false → x ≡ false
      first x y e = ground arith

-- The rows have different ids, as the primary key of a table.
abbrev pub DifferentIds : List KafkaRow → Type 0
DifferentIds nil = Unit
DifferentIds (cons row rows) = (contains (map (λ r. r.id) rows) row.id ≡ false) × DifferentIds rows

-- Every row of a list is served.
abbrev pub AllServed : List KafkaRow → Groups → Type 0
AllServed rows groups = All (λ row. Serves row (lookup row.id groups)) rows

pub renew_groups-AllServed :
    (lib : Libs) (lk : Links) (rows : List KafkaRow) (groups : Groups)
    → DifferentIds rows
    → All (λ row. can_spawn lib lk row ≡ true) rows
    → AllRunning groups
    → AllServed rows (renew_groups lib lk rows groups)
unfolding renew_groups
renew_groups-AllServed lib lk nil groups d ok running = tt
renew_groups-AllServed lib lk (cons row rows) groups d ok running =
    let next = renew_group lib lk row (lookup row.id groups) groups in
    (
      subst (Serves row) (sym (lookup-renew_groups lib lk rows row.id next d.0))
          (renew_group-Serves lib lk row groups (lookup row.id groups) refl ok.0 running),
      renew_groups-AllServed lib lk rows next d.1 ok.1
          (renew_group-AllRunning lib lk row groups ok.0 running),
    )
