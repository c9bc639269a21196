-- ===== src/Text.antt =====
-- Texts: Rust's `&str` as the list of its characters' code points, and the methods of `str` that
-- the program calls. A position is a count of characters; the program cuts only at ASCII
-- characters that it has found itself, so byte offsets and these positions mark the same cuts.
pub mod Laws
pub mod Numbers
use Prim.Native.Char.{code}
use Prim.Native.String.{String}
use pulld.Base.{ℕ, zero, suc, Bool, true, false, ◌&&◌, ◌||◌, Option, none, some, ◌>>=◌}
use pulld.Base.{
  List, [], ◌∷◌, ◌++◌, reverse, length, is_some, is_none, unwrap_or, leb, ◌==◌, if◌then◌else◌,
}

abbrev pub Text : Type 0
Text = List ℕ

-- A literal of the source.
abbrev pub text : String → Text
text String.[] = []
text (String.◌∷◌ c s) = code c ∷ text s

abbrev pub text_eq : Text → Text → Bool
text_eq [] [] = true
text_eq [] (_ ∷ _) = false
text_eq (_ ∷ _) [] = false
text_eq (c ∷ s) (d ∷ t) = c == d && text_eq s t

-- `str::strip_prefix`, `starts_with`, `strip_suffix`, `ends_with`.
unfoldable pub strip_prefix : Text → Text → Option Text
strip_prefix s [] = some s
strip_prefix [] (_ ∷ _) = none
strip_prefix (d ∷ s) (c ∷ p) = if d == c then strip_prefix s p else none

unfoldable pub starts_with : Text → Text → Bool
unfolding strip_prefix
starts_with s p = is_some (strip_prefix s p)

unfoldable pub strip_suffix : Text → Text → Option Text
unfolding strip_prefix
strip_suffix s p = elim (strip_prefix (reverse s) (reverse p)) [
  | none ↦ none
  | some r ↦ some (reverse r)
]

unfoldable pub ends_with : Text → Text → Bool
unfolding strip_suffix
ends_with s p = is_some (strip_suffix s p)

-- `contains` of a character, and of a text.
unfoldable pub contains : Text → ℕ → Bool
contains [] c = false
contains (d ∷ s) c = d == c || contains s c

unfoldable pub contains_text : Text → Text → Bool
unfolding starts_with
contains_text [] p = starts_with [] p
contains_text (d ∷ s) p = starts_with (d ∷ s) p || contains_text s p

-- `split_once` at a character: the parts before and after its first occurrence. With
-- `find(c) = Some(i)` these are `s[..i]` and `s[i + 1..]`.
unfoldable pub split_once : Text → ℕ → Option (Text × Text)
split_once [] c = none
split_once (d ∷ s) c = elim (d == c) [
  | true ↦ some ([], s)
  | false ↦ elim (split_once s c) [ none ↦ none | some (a, b) ↦ some (d ∷ a, b) ]
]

-- The same at the last occurrence: `s[..i]` and `s[i + 1..]` with `rfind(c) = Some(i)`.
unfoldable pub rsplit_once : Text → ℕ → Option (Text × Text)
rsplit_once [] c = none
rsplit_once (d ∷ s) c = elim (rsplit_once s c) [
  | some (a, b) ↦ some (d ∷ a, b)
  | none ↦ if d == c then some ([], s) else none
]

-- `split(c)`: all the parts, at least one.
unfoldable pub split : Text → ℕ → List Text
unfolding split_once
split [] c = [] ∷ []
split (d ∷ s) c = elim (split s c) [
  | [] ↦ []
  | part ∷ parts ↦ if d == c then [] ∷ part ∷ parts else (d ∷ part) ∷ parts
]

-- `char::is_whitespace`: the Unicode property `White_Space`.
unfoldable pub is_whitespace : ℕ → Bool
is_whitespace c =
    (leb 9 c && leb c 13)
    || c == 0x20
    || c == 0x85
    || c == 0xa0
    || c == 0x1680
    || (leb 0x2000 c && leb c 0x200a)
    || c == 0x2028
    || c == 0x2029
    || c == 0x202f
    || c == 0x205f
    || c == 0x3000

-- `trim_start_matches` and `trim_end_matches` by a test of characters; `trim` and `trim_matches`.
unfoldable pub trim_start_by : (ℕ → Bool) → Text → Text
trim_start_by p [] = []
trim_start_by p (c ∷ s) = if p c then trim_start_by p s else c ∷ s

unfoldable pub trim_end_by : (ℕ → Bool) → Text → Text
unfolding trim_start_by
trim_end_by p s = reverse (trim_start_by p (reverse s))

unfoldable pub trim : Text → Text
unfolding trim_end_by is_whitespace
trim s = trim_end_by is_whitespace (trim_start_by is_whitespace s)

-- `trim_start_matches` of a text: the prefix is taken off again and again. A prefix that is not
-- empty makes the text shorter, so its length is fuel enough.
unfoldable pub trim_prefixes_on : ℕ → Text → Text → Text
unfolding strip_prefix
trim_prefixes_on zero s p = s
trim_prefixes_on (suc fuel) s p = elim (strip_prefix s p) [
  | none ↦ s
  | some r ↦ trim_prefixes_on fuel r p
]

unfoldable pub trim_start_matches : Text → Text → Text
unfolding trim_prefixes_on
trim_start_matches s p = trim_prefixes_on (length s) s p

-- `replace` of a character by a text.
unfoldable pub replace : Text → ℕ → Text → Text
replace [] c t = []
replace (d ∷ s) c t = (if d == c then t else d ∷ []) ++ replace s c t

-- `parts.join(sep)`.
unfoldable pub join : Text → List Text → Text
join sep [] = []
join sep (s ∷ []) = s
join sep (s ∷ t ∷ rest) = s ++ (sep ++ join sep (t ∷ rest))

-- `matches(c).count()`.
unfoldable pub count_char : Text → ℕ → ℕ
count_char [] c = 0
count_char (d ∷ s) c = if d == c then suc (count_char s c) else count_char s c
