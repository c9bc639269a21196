-- ===== src/Json.antt =====
-- What the program uses of `serde_json`: an interface that the components take as a parameter.
-- `from_slice` is `none` where the bytes are no JSON.
pub mod Sample
use pulld.Base.{ℕ, Option, ◌>>=◌, List}
use pulld.Text.{Text}

pub record Json : Type 1 where
  pub Value : Type 0
  pub get : Value → Text → Option Value
  pub pointer : Value → Text → Option Value
  pub as_str : Value → Option Text
  pub as_u64 : Value → Option ℕ
  pub as_array : Value → Option (List Value)
  pub from_slice : List ℕ → Option Value

-- `.get(name).and_then(|v| v.as_str())`.
abbrev pub str_field : (J : Json) → J.Value → Text → Option Text
str_field J json name = do value ← J.get json name; J.as_str value
