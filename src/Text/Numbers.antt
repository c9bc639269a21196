-- ===== src/Text/Numbers.antt =====
-- Decimal numbers: printing, and `str::parse` into an unsigned integer of a given width.
use pulld.Base.{
  ℕ, zero, suc, ◌+◌, ◌-◌, ◌*◌, ◌/◌, ◌%◌, ◌^◌, Bool, ◌&&◌, Option, none, some, [], ◌∷◌, leb, ltb,
  ◌==◌, if◌then◌else◌,
}
use pulld.Text.{Text}

-- The digits of `n` in front of `rest`; a number below `10 ^ fuel` needs `fuel` digits at most.
unfoldable pub digits_on : ℕ → ℕ → Text → Text
digits_on zero n rest = rest
digits_on (suc fuel) n rest =
    let more = digits_on fuel (n / 10) ((b'0' + n % 10) ∷ rest) in
    if ltb n 10 then (b'0' + n) ∷ rest else more

-- `n.to_string()`. A number has no more digits than its value and one.
unfoldable pub to_text : ℕ → Text
unfolding digits_on
to_text n = digits_on (suc n) n []

abbrev pub is_digit : ℕ → Bool
is_digit c = leb b'0' c && leb c b'9'

-- The value of the digits, after those that gave `acc`; `none` at another character and where the
-- value does not fit below `limit`.
unfoldable pub parse_digits : ℕ → ℕ → Text → Option ℕ
parse_digits limit acc [] = some acc
parse_digits limit acc (c ∷ s) =
    let acc' = acc * 10 + (c - b'0') in
    let rest = parse_digits limit acc' s in if is_digit c && ltb acc' limit then rest else none

-- `s.parse()` into an integer below `limit`: digits, with one `+` in front if need be.
unfoldable pub parse_below : ℕ → Text → Option ℕ
unfolding parse_digits
parse_below limit [] = none
parse_below limit (c ∷ []) = if c == b'+' then none else parse_digits limit 0 (c ∷ [])
parse_below limit (c ∷ d ∷ s) =
    if c == b'+' then parse_digits limit 0 (d ∷ s) else parse_digits limit 0 (c ∷ d ∷ s)

abbrev pub u64_limit : ℕ
u64_limit = 2 ^ 64

abbrev pub u16_limit : ℕ
u16_limit = 2 ^ 16
