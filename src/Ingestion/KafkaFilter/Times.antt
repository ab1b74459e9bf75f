-- ===== src/Ingestion/KafkaFilter/Times.antt =====
-- internal/ingestion/kafka_filter.go: `parseFlexibleTime` and `parseInt`.
--
-- An int64 is its 64 bits as a number below 2^64, and `unix` puts its signed value on the clock. Of a
-- text that is not ASCII, the length in characters is tested in place of the one in bytes; `parse_int`
-- refuses it in either case.
pub mod Units
use Prim.Native.String.{[], ◌∷◌}
use Prim.Native.Char.{Char, code}
use alertmesh_new.Prelude.{
  ℕ, ◌+◌, ◌*◌, ◌-◌, ◌%◌, suc, String, Bool, true, false, Option, none, some, List, ◌&&◌, ◌||◌,
  str_eq, if◌then◌else◌, ltb, leb, trim_space,
}
use mathlib.Core.List.{[] as nil, ◌∷◌ as cons}
use alertmesh_new.Ingestion.KafkaFilter.{Libs}

abbrev pub size : String → ℕ
size [] = 0
size (c ∷ s) = suc (size s)

abbrev pub wrap : ℕ → ℕ
wrap n = n % 18446744073709551616

-- The bits of a positive value that is over a bound.
abbrev pub over : ℕ → ℕ → Bool
over bound n = ltb bound n && ltb n 9223372036854775808

-- The loop of `parseInt`, from the bits read so far.
unfoldable pub parse_digits : ℕ → String → Option ℕ
parse_digits n [] = some n
parse_digits n (c ∷ s) =
    let rest = parse_digits (wrap (n * 10 + (code c - 48))) s in
    if ltb (code c) 48 || ltb 57 (code c) then none else rest

unfoldable pub parse_int : String → Option ℕ
unfolding parse_digits
parse_int s = parse_digits 0 s

-- time.Unix(0, n): as many nanoseconds from 1970 as the bits say.
abbrev pub unix : Libs → ℕ → ℕ
unix lib n =
    if ltb n 9223372036854775808
    then lib.unix_epoch + n
    else lib.unix_epoch - (18446744073709551616 - n)

unfoldable pub epoch_time : Libs → ℕ → Option ℕ
epoch_time lib n =
    if over 1000000000000000000 n
    then some (unix lib n)
    else if over 1000000000000000 n
    then some (unix lib (wrap (n * 1000)))
    else if over 1000000000000 n
    then some (unix lib (wrap (n * 1000000)))
    else if over 1000000000 n
    then some (lib.unix_epoch + n * 1000000000)
    else none

abbrev pub layouts : List String
layouts = cons "2006-01-02T15:04:05.999999999Z07:00" (
    cons "2006-01-02T15:04:05Z07:00"
      (cons "2006-01-02 15:04:05.999999999Z07:00" (cons "2006-01-02T15:04:05" nil)))

unfoldable pub parse_by : Libs → String → List String → Option ℕ
parse_by lib v nil = none
parse_by lib v (cons layout rest) =
    let later = parse_by lib v rest in
    elim (lib.parse_layout layout v) [ none ↦ later | some t ↦ some t ]

unfoldable pub parse_epoch : Libs → String → Option ℕ
unfolding parse_int epoch_time
parse_epoch lib v =
    if leb 10 (size v) && leb (size v) 19
    then elim (parse_int v) [ none ↦ none | some n ↦ epoch_time lib n ]
    else none

unfoldable pub parse_flexible_time : Libs → String → Option ℕ
unfolding trim_space parse_by parse_epoch
parse_flexible_time lib raw =
    let v = trim_space raw in
    if str_eq v ""
    then none
    else elim (parse_by lib v layouts) [ none ↦ parse_epoch lib v | some t ↦ some t ]
