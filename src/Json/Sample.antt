-- ===== src/Json/Sample.antt =====
-- A concrete JSON library over a small type of values, for the tests.
use pulld.Base.{ℕ, Option, none, some, List, [], ◌∷◌, if◌then◌else◌}
use pulld.Text.{Text, text_eq, split}
use pulld.Json.{Json}

mutual
  pub data Value : Type 0 where
    num : ℕ → Value
    str : Text → Value
    arr : Items → Value
    obj : Fields → Value

  pub data Items : Type 0 where
    nil : Items
    cons : Value → Items → Items

  pub data Fields : Type 0 where
    end : Fields
    field : Text → Value → Fields → Fields

abbrev items : Items → List Value
items nil = []
items (cons v vs) = v ∷ items vs

abbrev lookup : Text → Fields → Option Value
lookup k end = none
lookup k (field j v fs) = if text_eq j k then some v else lookup k fs

abbrev get : Value → Text → Option Value
get (obj fs) k = lookup k fs
get _ k = none

abbrev walk : Value → List Text → Option Value
walk v [] = some v
walk v (k ∷ ks) = elim (get v k) [ none ↦ none | some w ↦ walk w ks ]

abbrev tokens : List Text → List Text
tokens [] = []
tokens (_ ∷ ks) = ks

abbrev as_str : Value → Option Text
as_str (str s) = some s
as_str _ = none

abbrev as_u64 : Value → Option ℕ
as_u64 (num n) = some n
as_u64 _ = none

abbrev as_array : Value → Option (List Value)
as_array (arr vs) = some (items vs)
as_array _ = none

-- Bytes parse to the value `parsed` whatever they are: a test chooses the value it needs.
abbrev pub sample_json : (List ℕ → Option Value) → Json
sample_json parsed = record {
  Value = Value;
  get = get;
  pointer = λ v p. walk v (tokens (split p b'/'));
  as_str = as_str;
  as_u64 = as_u64;
  as_array = as_array;
  from_slice = parsed;
}
