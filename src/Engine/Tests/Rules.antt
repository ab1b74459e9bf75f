-- ===== src/Engine/Tests/Rules.antt =====
-- Runs of the rules of internal/engine: matchers, silences, routes, inhibitions.
use alertmesh_new.Prelude.{
  true, false, some, List, [], ◌∷◌, ◌≡◌, ◌↔◌, refl, inl, arith, Any, pos, lookup, subst,
}
use mathlib.Core.Option.{some-injective}
use alertmesh_new.Engine.Matcher.{MatcherJson, unmarshal, compile, matches, matches_all}
use alertmesh_new.Engine.Matcher.Laws.{IsStuck, Means, matches_iff-Means}
use alertmesh_new.Engine.Silence.{SilenceRow, is_silenced, load_silences}
use alertmesh_new.Engine.Silence.Windows.{
  Silences, is_silenced-load_silences, load_silences_early, load_silences_regex,
}
use alertmesh_new.Engine.Router.{RouteDef, match, load_routes}
use alertmesh_new.Engine.Router.Priority.{Picked, match-load_routes}
use alertmesh_new.Engine.Inhibit.{Inhibitor, track, is_inhibited}
use alertmesh_new.Engine.Inhibit.Active.{Fires, is_inhibited_iff, track-is_inhibited}
use alertmesh_new.Engine.Tests.{
  two_routes, literal_rx, disk_labels, disk_full, critical_json, critical_regex, critical_inhibits,
  warning_json, warning_labels, Pairs-disk_labels,
}

matches_regex :
    matches literal_rx (compile literal_rx (unmarshal critical_regex)) disk_labels ≡ true
unfolding matches compile unmarshal lookup
matches_regex = refl

matches_iff-Means_example :
    (matches literal_rx (compile literal_rx (unmarshal critical_regex)) disk_labels ≡ true)
    ↔ Means literal_rx (unmarshal critical_regex) disk_labels
matches_iff-Means_example = matches_iff-Means literal_rx (unmarshal critical_regex) disk_labels

abbrev silence_row : MatcherJson → SilenceRow
silence_row m = record {
  name = "maintenance";
  is_active = true;
  matchers = some (m ∷ []);
  starts_at = 10;
  ends_at = 20;
}

silence_in_force :
    is_silenced literal_rx
      (load_silences 10 (some (silence_row critical_json ∷ [])) [])
      15
      disk_full
    ≡ true
unfolding is_silenced load_silences matches_all matches unmarshal lookup
silence_in_force = refl

is_silenced-load_silences_example :
    (is_silenced literal_rx
        (load_silences 10 (some (silence_row critical_json ∷ [])) [])
        15
        disk_full
      ≡ true)
    ↔ Any (Silences literal_rx 10 15 disk_full) (silence_row critical_json ∷ [])
is_silenced-load_silences_example =
    is_silenced-load_silences literal_rx 10 15 disk_full (silence_row critical_json ∷ []) []

-- Loaded one tick before its window opens, the same policy is not there when it should be.
load_silences_early_example :
    is_silenced literal_rx (load_silences 9 (some (silence_row critical_json ∷ [])) []) 15 disk_full
    ≡ false
load_silences_early_example =
    load_silences_early literal_rx 9 15 disk_full (silence_row critical_json ∷ []) []
      (omega arith, tt)

IsStuck-regex :
    (raws : List MatcherJson)
    → (silence_row critical_regex).matchers ≡ some raws
    → Any (IsStuck disk_labels) raws
unfolding unmarshal lookup
IsStuck-regex raws e =
    subst (Any (IsStuck disk_labels)) (some-injective (critical_regex ∷ []) raws e)
      (inl (record { regex = refl; value = "critical"; present = refl }))

load_silences_regex_example :
    is_silenced literal_rx
      (load_silences 10 (some (silence_row critical_regex ∷ [])) [])
      15
      disk_full
    ≡ false
load_silences_regex_example =
    load_silences_regex literal_rx 10 15 disk_full (silence_row critical_regex ∷ []) []
      (IsStuck-regex, tt)

abbrev loaded_routes : List RouteDef
loaded_routes = load_routes literal_rx (some two_routes) []

abbrev route_r1 : RouteDef
route_r1 = record {
  id = "r1";
  name = "r1";
  priority = pos 20;
  matchers = compile literal_rx (unmarshal critical_regex) ∷ [];
  group_by = [];
}

picks_r1 : match literal_rx loaded_routes disk_full ≡ some route_r1
unfolding match load_routes matches_all matches compile unmarshal lookup
picks_r1 = refl

match-load_routes_example : Picked literal_rx two_routes disk_full route_r1
match-load_routes_example = match-load_routes literal_rx two_routes [] disk_full picks_r1

abbrev tracked : Inhibitor
tracked = track literal_rx (critical_inhibits (warning_json ∷ [])) 100 disk_full

is_inhibited_iff_example :
    (is_inhibited literal_rx tracked 110 warning_labels ≡ true)
    ↔ Any (Fires literal_rx tracked 110 warning_labels) tracked.rules
is_inhibited_iff_example = is_inhibited_iff literal_rx tracked 110 warning_labels

tracked_inhibits : is_inhibited literal_rx tracked 110 warning_labels ≡ true
tracked_inhibits =
    track-is_inhibited literal_rx (critical_inhibits (warning_json ∷ [])) 100 110 disk_full
      warning_labels (omega arith) Pairs-disk_labels
