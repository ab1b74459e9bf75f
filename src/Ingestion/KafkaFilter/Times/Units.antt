-- ===== src/Ingestion/KafkaFilter/Times/Units.antt =====
-- internal/ingestion/kafka_filter.go: the units in which `parseFlexibleTime` reads a number.
use Prim.Native.String.{[], ◌∷◌}
use Prim.Native.Char.{code}
use alertmesh_new.Prelude.{
  ℕ, ◌+◌, ◌*◌, ◌-◌, ◌≤◌, ◌<◌, String, Bool, true, false, none, some, ◌&&◌, ◌||◌, ◌≡◌, refl, sym, ap,
  ◌∙◌, subst, arith, ltb, leb, if-no, if-yes, trim_space, str_eq, eq_iff, ◌⊎◌, inl, inr,
}
use alertmesh_new.Ingestion.KafkaFilter.{Libs}
use alertmesh_new.Ingestion.KafkaFilter.Times.{
  size, wrap, parse_digits, parse_int, epoch_time, parse_epoch, parse_by, layouts,
  parse_flexible_time,
}

-- Decimal digits only.
abbrev pub AllDigits : String → Type 0
AllDigits [] = Unit
AllDigits (c ∷ s) = (48 ≤ code c) × (code c ≤ 57) × AllDigits s

-- The number that the digits say, after those already read.
abbrev pub value_from : ℕ → String → ℕ
value_from n [] = n
value_from n (c ∷ s) = value_from (n * 10 + (code c - 48)) s

wrap_step : (n d : ℕ) → wrap (wrap n * 10 + d) ≡ wrap (n * 10 + d)
wrap_step n d = omega arith

parse_digits-value :
    (n : ℕ) (s : String) → AllDigits s → parse_digits (wrap n) s ≡ some (wrap (value_from n s))
unfolding parse_digits
parse_digits-value n [] h = refl
parse_digits-value n (c ∷ s) h =
    if-no (λ o. o ≡ some (wrap (value_from (n * 10 + (code c - 48)) s)))
      (ltb (code c) 48 || ltb 57 (code c)) none
      (parse_digits (wrap (wrap n * 10 + (code c - 48))) s) (is_digit (code c) h.0 h.1)
      (ap (λ m. parse_digits m s) (wrap_step n (code c - 48))
        ∙ parse_digits-value (n * 10 + (code c - 48)) s h.2)
  where
    is_digit : (k : ℕ) → 48 ≤ k → k ≤ 57 → (ltb k 48 || ltb 57 k) ≡ false
    is_digit k lo hi = ground arith

-- A number spells an instant, given in nanoseconds, in seconds, milliseconds, microseconds or
-- nanoseconds.
abbrev pub Spells : ℕ → ℕ → Type 0
Spells n t = (n * 1000000000 ≡ t) ⊎ ((n * 1000000 ≡ t) ⊎ ((n * 1000 ≡ t) ⊎ (n ≡ t)))

-- The values of epoch_time on the spellings of one instant: `t` nanoseconds after 1970.
epoch_time-units :
    (lib : Libs) (t n : ℕ)
    → 1000000000000000000 < t
    → t ≤ 9223372036854775807
    → Spells n t
    → epoch_time lib (wrap n) ≡ some (lib.unix_epoch + t)
unfolding epoch_time
epoch_time-units lib t n lo hi (inl e) = ground arith
epoch_time-units lib t n lo hi (inr (inl e)) = ground arith
epoch_time-units lib t n lo hi (inr (inr (inl e))) = ground arith
epoch_time-units lib t n lo hi (inr (inr (inr e))) = ground arith

-- The number of a text of digits.
abbrev pub decimal : String → ℕ
decimal v = value_from 0 v

parse_epoch-units :
    (lib : Libs) (v : String) (t : ℕ)
    → AllDigits v
    → 10 ≤ size v
    → size v ≤ 19
    → 1000000000000000000 < t
    → t ≤ 9223372036854775807
    → Spells (decimal v) t
    → parse_epoch lib v ≡ some (lib.unix_epoch + t)
unfolding parse_epoch parse_int
parse_epoch-units lib v t digits short long lo hi n =
    if-yes (λ o. o ≡ some (lib.unix_epoch + t)) (leb 10 (size v) && leb (size v) 19)
      (elim (parse_digits 0 v) [ none ↦ none | some k ↦ epoch_time lib k ]) none
      (fits (size v) short long)
      (subst (λ o. elim o [ none ↦ none | some k ↦ epoch_time lib k ] ≡ some (lib.unix_epoch + t))
        (sym (parse_digits-value 0 v digits)) (epoch_time-units lib t (decimal v) lo hi n))
  where
    fits : (k : ℕ) → 10 ≤ k → k ≤ 19 → (leb 10 k && leb k 19) ≡ true
    fits k short long = ground arith

-- A text of 10 to 19 digits that no layout parses is read as the instant that it spells, to the
-- nanosecond and in whichever of the four units, if the instant is after 2001-09-09T01:46:40Z and its
-- nanoseconds fit in an int64, which they do until the year 2262.
pub parse_flexible_time-units :
    (lib : Libs) (raw : String) (t : ℕ)
    → parse_by lib (trim_space raw) layouts ≡ none
    → AllDigits (trim_space raw)
    → 10 ≤ size (trim_space raw)
    → size (trim_space raw) ≤ 19
    → 1000000000000000000 < t
    → t ≤ 9223372036854775807
    → Spells (decimal (trim_space raw)) t
    → parse_flexible_time lib raw ≡ some (lib.unix_epoch + t)
unfolding parse_flexible_time
parse_flexible_time-units lib raw t no_layout digits short long lo hi n =
    if-no (λ o. o ≡ some (lib.unix_epoch + t)) (str_eq (trim_space raw) "") none
      (elim (parse_by lib (trim_space raw) layouts) [
        | none ↦ parse_epoch lib (trim_space raw)
        | some u ↦ some u
      ])
      (not_empty (trim_space raw) short)
      (subst
        (λ o.
          elim o [ none ↦ parse_epoch lib (trim_space raw) | some u ↦ some u ]
          ≡ some (lib.unix_epoch + t))
        (sym no_layout) (parse_epoch-units lib (trim_space raw) t digits short long lo hi n))
  where
    not_empty : (v : String) → 10 ≤ size v → str_eq v "" ≡ false
    not_empty v h = by_test (str_eq v "") refl
      where
        by_test : (b : Bool) → str_eq v "" ≡ b → b ≡ false
        by_test true e = absurd (no_digits (subst (λ x. 10 ≤ size x) ((eq_iff v "").0 e) h))
          where
            no_digits : 10 ≤ 0 → ⊥
            no_digits q = ground arith
        by_test false e = refl
