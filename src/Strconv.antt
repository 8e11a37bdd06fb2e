-- ===== src/Strconv.antt =====
-- Go's strconv on decimal integers, as the path parser, the handlers and the settings use it.
use webhook_event_route.Prelude.{
  ℕ, zero, suc, ◌+◌, ◌-◌, ◌*◌, Bool, ◌&&◌, true, false, any, Option, none, some, [], ◌∷◌, leb, ◌==◌,
  if◌then◌else◌, ℤ, pos, negsuc, Text, codes, text_eq,
}

is_digit : ℕ → Bool
is_digit c = leb b'0' c && leb c b'9'

-- The value of a run of digits, `none` at any other byte.
digits_from : ℕ → Text → Option ℕ
unfolding is_digit
digits_from acc [] = some acc
digits_from acc (c ∷ s) =
    let rest = digits_from (acc * 10 + (c - b'0')) s in if is_digit c then rest else none

digits : Text → Option ℕ
unfolding digits_from
digits [] = none
digits (c ∷ s) = digits_from 0 (c ∷ s)

abbrev max_int : ℕ
max_int = 9223372036854775807

to_positive : ℕ → Option ℤ
to_positive n = if leb n max_int then some (pos n) else none

to_negative : ℕ → Option ℤ
to_negative zero = some (pos 0)
to_negative (suc n) = if leb n max_int then some (negsuc n) else none

-- strconv.Atoi: a sign or none, then decimal digits, within the range of an int.
unfoldable pub atoi : Text → Option ℤ
unfolding digits to_positive to_negative
atoi [] = none
atoi (c ∷ s) =
    if c == b'-'
    then elim (digits s) [ none ↦ none | some n ↦ to_negative n ]
    else if c == b'+'
    then elim (digits s) [ none ↦ none | some n ↦ to_positive n ]
    else elim (digits (c ∷ s)) [ none ↦ none | some n ↦ to_positive n ]

clamp_positive : ℕ → ℤ
clamp_positive n = if leb n max_int then pos n else pos max_int

clamp_negative : ℕ → ℤ
clamp_negative zero = pos 0
clamp_negative (suc n) = if leb n max_int then negsuc n else negsuc max_int

-- The value that strconv.Atoi and ParseInt return beside an error that is ignored: 0 where the text is no
-- number, the nearest int where it is out of range.
unfoldable pub lenient : Text → ℤ
unfolding digits clamp_positive clamp_negative
lenient [] = pos 0
lenient (c ∷ s) =
    if c == b'-'
    then elim (digits s) [ none ↦ pos 0 | some n ↦ clamp_negative n ]
    else if c == b'+'
    then elim (digits s) [ none ↦ pos 0 | some n ↦ clamp_positive n ]
    else elim (digits (c ∷ s)) [ none ↦ pos 0 | some n ↦ clamp_positive n ]

-- strconv.ParseBool
unfoldable pub parse_bool : Text → Option Bool
unfolding text_eq
parse_bool s =
    if any (text_eq s)
      (codes "1" ∷ codes "t" ∷ codes "T" ∷ codes "true" ∷ codes "TRUE" ∷ codes "True" ∷ [])
    then some true
    else if any (text_eq s)
        (codes "0" ∷ codes "f" ∷ codes "F" ∷ codes "false" ∷ codes "FALSE" ∷ codes "False" ∷ [])
    then some false
    else none
