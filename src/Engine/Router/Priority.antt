-- ===== src/Engine/Router/Priority.antt =====
-- internal/engine: which of the loaded routes `Match` picks.
use alertmesh_new.Prelude.{
  true, false, none, some, List, [], ◌∷◌, All, All-imp, Any, ◌≤ℤ◌, ◌≡◌, refl, inl, inr, arith,
  Bool-cases, Option-cases, ℤ, leb_ℤ, if-both, ◌↔◌, subst,
}
use alertmesh_new.Engine.Alert.{RawAlert}
use alertmesh_new.Engine.Matcher.{Regexp, matches_all}
use alertmesh_new.Engine.Router.{
  RouteDef, RouteRow, set_routes, match, enabled_routes, insert_row, order_by_priority,
  select_routes, route_defs, load_routes,
}
use alertmesh_new.Engine.Router.Table.{SomeOfRow, OfRow, load_routes-All_of, load_routes-Any_of}

-- ORDER BY priority DESC
abbrev Descending : List RouteRow → Type 0
Descending [] = Unit
Descending (r ∷ rs) = All (λ s. s.priority ≤ℤ r.priority) rs × Descending rs

abbrev DescendingDefs : List RouteDef → Type 0
DescendingDefs [] = Unit
DescendingDefs (r ∷ rs) = All (λ s. s.priority ≤ℤ r.priority) rs × DescendingDefs rs

insert_row-All :
    (p : ℤ) (r : RouteRow) (rs : List RouteRow)
    → r.priority ≤ℤ p
    → All (λ s. s.priority ≤ℤ p) rs
    → All (λ s. s.priority ≤ℤ p) (insert_row r rs)
unfolding insert_row
insert_row-All p r [] le h = (le, tt)
insert_row-All p r (s ∷ rs) le h =
    if-both (All (λ t. t.priority ≤ℤ p)) (leb_ℤ s.priority r.priority) (le, h)
      (h.0, insert_row-All p r rs le h.1)

insert_row-Descending :
    (r : RouteRow) (rs : List RouteRow) → Descending rs → Descending (insert_row r rs)
unfolding insert_row
insert_row-Descending r [] h = (tt, tt)
insert_row-Descending r (s ∷ rs) h = elim (Bool-cases (leb_ℤ s.priority r.priority)) [
  | inl t ↦
      let le : s.priority ≤ℤ r.priority = ground (arith, t) in
      rw t ((le, All-imp _ _ rs (λ q below. omega (arith, below, le)) h.0), h)
  | inr t ↦
      rw t (insert_row-All s.priority r rs (ground (arith, t)) h.0, insert_row-Descending r rs h.1)
]

order_by_priority-Descending : (rs : List RouteRow) → Descending (order_by_priority rs)
unfolding order_by_priority
order_by_priority-Descending [] = tt
order_by_priority-Descending (r ∷ rs) =
    insert_row-Descending r (order_by_priority rs) (order_by_priority-Descending rs)

select_routes-Descending : (rows : List RouteRow) → Descending (select_routes rows)
unfolding select_routes
select_routes-Descending rows = order_by_priority-Descending (enabled_routes rows)

route_defs-All :
    (r : RouteRow) (rs : List RouteRow)
    → All (λ s. s.priority ≤ℤ r.priority) rs
    → All (λ d. d.priority ≤ℤ r.priority) (route_defs rs)
unfolding route_defs
route_defs-All r [] h = tt
route_defs-All r (s ∷ rs) h = elim (Option-cases s.matchers) [
  | inl bad ↦ rw bad (route_defs-All r rs h.1)
  | inr (ms, good) ↦ rw good (h.0, route_defs-All r rs h.1)
]

route_defs-Descending : (rs : List RouteRow) → Descending rs → DescendingDefs (route_defs rs)
unfolding route_defs
route_defs-Descending [] h = tt
route_defs-Descending (r ∷ rs) h = elim (Option-cases r.matchers) [
  | inl bad ↦ rw bad (route_defs-Descending rs h.1)
  | inr (ms, good) ↦ rw good (route_defs-All r rs h.0, route_defs-Descending rs h.1)
]

module _ (rx : Regexp) where
  set_routes-All :
      (p : ℤ) (ds : List RouteDef)
      → All (λ d. d.priority ≤ℤ p) ds
      → All (λ d. d.priority ≤ℤ p) (set_routes rx ds)
  unfolding set_routes
  set_routes-All p [] h = tt
  set_routes-All p (d ∷ ds) h = (h.0, set_routes-All p ds h.1)

  set_routes-Descending :
      (ds : List RouteDef) → DescendingDefs ds → DescendingDefs (set_routes rx ds)
  unfolding set_routes
  set_routes-Descending [] h = tt
  set_routes-Descending (d ∷ ds) h =
      (set_routes-All d.priority ds h.0, set_routes-Descending ds h.1)

  load_routes-Descending :
      (rows : List RouteRow) (old : List RouteDef) → DescendingDefs (load_routes rx (some rows) old)
  unfolding load_routes
  load_routes-Descending rows old =
      set_routes-Descending _ (route_defs-Descending _ (select_routes-Descending rows))

  -- Route `r` wins for the alert: it is one of the routes, it matches, and no matching route has a
  -- higher priority.
  record Wins (routes : List RouteDef) (alert : RawAlert) (r : RouteDef) : Type 0 where
    loaded : Any (λ s. r ≡ s) routes
    fits : matches_all rx r.matchers alert.labels ≡ true
    highest :
        All (λ s. matches_all rx s.matchers alert.labels ≡ true → s.priority ≤ℤ r.priority) routes

  match-Wins :
      (rs : List RouteDef) (alert : RawAlert) {r : RouteDef}
      → DescendingDefs rs
      → match rx rs alert ≡ some r
      → Wins rs alert r
  unfolding match
  match-Wins [] alert d h = cc
  match-Wins (s ∷ rs) alert {r} d h = elim (Bool-cases (matches_all rx s.matchers alert.labels)) [
    | inl fit ↦
        let same : s ≡ r = ground arith in
        subst (λ q. Wins (s ∷ rs) alert q) same
          (record {
            loaded = inl refl;
            fits = fit;
            highest = (λ _. omega arith, All-imp _ _ rs (λ q le _. le) d.0);
          })
    | inr miss ↦
        let ih : Wins rs alert r = match-Wins rs alert d.1 (ground arith) in
        record { loaded = inr ih.loaded; fits = ih.fits; highest = (λ e. ground arith, ih.highest) }
  ]

  -- Route `r` is the answer of the table: it is the route of an enabled row, it matches, and no enabled
  -- row whose matchers decode to ones that match has a higher priority.
  pub record Picked (rows : List RouteRow) (alert : RawAlert) (r : RouteDef) : Type 0 where
    pub from_row : Any (λ row. (row.is_enabled ≡ true) × SomeOfRow rx (λ d. r ≡ d) row) rows
    pub matching : matches_all rx r.matchers alert.labels ≡ true
    pub top :
        All
          (λ row.
            row.is_enabled ≡ true
            → OfRow rx
                (λ d. matches_all rx d.matchers alert.labels ≡ true → d.priority ≤ℤ r.priority)
                row)
          rows

  -- Whatever order the table has, the route that `Match` picks after a load is that of an enabled row,
  -- matches, and has the highest priority among the enabled rows that decode and match.
  pub match-load_routes :
      (rows : List RouteRow) (old : List RouteDef) (alert : RawAlert) {r : RouteDef}
      → match rx (load_routes rx (some rows) old) alert ≡ some r
      → Picked rows alert r
  match-load_routes rows old alert {r} h =
      let wins = match-Wins _ alert (load_routes-Descending rows old) h in
      record {
        from_row = load_routes-Any_of rx (λ d. r ≡ d) rows old wins.loaded;
        matching = wins.fits;
        top =
            load_routes-All_of rx
              (λ d. matches_all rx d.matchers alert.labels ≡ true → d.priority ≤ℤ r.priority) rows
              old wins.highest;
      }

  -- No route is picked exactly when no route matches.
  pub match-none_iff :
      (rs : List RouteDef) (alert : RawAlert)
      → (match rx rs alert ≡ none) ↔ All (λ r. matches_all rx r.matchers alert.labels ≡ false) rs
  unfolding match
  match-none_iff [] alert = (λ h. tt, λ h. refl)
  match-none_iff (r ∷ rs) alert =
      let ih = match-none_iff rs alert in
      (λ h. (ground arith, ih.0 (ground arith)), λ h. ground (arith, ih.1 h.1))

  -- The route depends on the labels alone.
  pub match-labels :
      (rs : List RouteDef) (a b : RawAlert) → a.labels ≡ b.labels → match rx rs a ≡ match rx rs b
  unfolding match
  match-labels [] a b e = refl
  match-labels (r ∷ rs) a b e = ground (arith, match-labels rs a b e)
