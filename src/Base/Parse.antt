-- ===== src/Base/Parse.antt =====
-- Python's `int(value)` of a JSON value. The digits are the ASCII ones.
use Prim.Native.Nat.{ℕ, zero, suc, ◌+◌, ◌-◌, ◌*◌}
use Prim.Native.String.{String}
use mathlib.Core.Bool.{Bool, false, ◌&&◌, ◌||◌}
use mathlib.Core.Option.{Option, none, some}
use mathlib.Core.List.{List, [], ◌∷◌}
use poi_hub.Base.Tests.{eqb, leb, if◌then◌else◌}
use poi_hub.Base.Text.{codes, strip}
use poi_hub.Base.Int.{ℤ, pos, negsuc}
use poi_hub.Base.Json.{Json, str, as_int}

-- digits, with single underscores between them; `after` tells whether a digit came last
unfoldable read_digits : ℕ → Bool → List ℕ → Option ℕ
read_digits n after [] = if after then some n else none
read_digits n after (c ∷ cs) =
    let digit = leb b'0' c && leb c b'9' in
    let rest = read_digits (if digit then n * 10 + (c - b'0') else n) digit cs in
    if digit || (eqb c b'_' && after) then rest else none

abbrev negated : ℕ → ℤ
negated zero = pos 0
negated (suc n) = negsuc n

unfoldable read_signed : List ℕ → Option ℤ
unfolding read_digits
read_signed [] = none
read_signed (c ∷ cs) =
    if eqb c b'-'
    then elim (read_digits 0 false cs) [ none ↦ none | some n ↦ some (negated n) ]
    else elim (read_digits 0 false (if eqb c b'+' then cs else c ∷ cs)) [
      | none ↦ none
      | some n ↦ some (pos n)
    ]

-- `int(text)`; none is the `ValueError`
unfoldable parse_int : String → Option ℤ
unfolding read_signed strip
parse_int s = read_signed (strip (codes s))

-- `int(value)`; none is the `ValueError` or the `TypeError`
unfoldable pub to_int : Json → Option ℤ
unfolding parse_int
to_int (str s) = parse_int s
to_int v = as_int v
