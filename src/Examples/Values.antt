-- ===== src/Examples/Values.antt =====
-- A concrete type of JSON values, whose parser knows a table of documents.
use brazen.Base.{
  ℕ, zero, suc, Bool, true, false, List, [], ◌∷◌, Option, none, some, Bytes, str, bytes_eq,
  bytes_eq_iff, ◌≡◌, refl, ap, ◌∙◌, if◌then◌else◌,
}
use brazen.Base.Result.{Result, ok, err}
use brazen.Base.Assoc.{value_at}
use brazen.Canonical.Json.{Json, JsonLaws}

mutual
  pub data Value : Type 0 where
    null : Value
    string : Bytes → Value
    number : ℕ → Value
    bool : Bool → Value
    array : Members → Value
    object : Members → Value

  -- The items of an array have empty keys.
  pub data Members : Type 0 where
    nil : Members
    cons : Bytes → Value → Members → Members

abbrev pub members : List (Bytes × Value) → Members
members [] = nil
members ((k, v) ∷ m) = cons k v (members m)

abbrev items : List Value → Members
items [] = nil
items (v ∷ vs) = cons [] v (items vs)

abbrev entries : Members → List (Bytes × Value)
entries nil = []
entries (cons k v m) = (k, v) ∷ entries m

abbrev values : Members → List Value
values nil = []
values (cons k v m) = v ∷ values m

unfoldable pub lookup : Bytes → Members → Option Value
lookup key nil = none
lookup key (cons k v m) = let rest = lookup key m in if bytes_eq k key then some v else rest

abbrev or_null : Option Value → Value
or_null none = null
or_null (some v) = v

abbrev nth : ℕ → Members → Value
nth i nil = null
nth zero (cons k v m) = v
nth (suc i) (cons k v m) = nth i m

unfoldable pub get : Value → Bytes → Option Value
unfolding lookup
get (object m) key = lookup key m
get v key = none

abbrev at_index : Value → ℕ → Value
at_index (array m) i = nth i m
at_index v i = null

abbrev as_str : Value → Option Bytes
as_str (string s) = some s
as_str v = none

abbrev as_u64 : Value → Option ℕ
as_u64 (number n) = some n
as_u64 v = none

abbrev as_bool : Value → Option Bool
as_bool (bool b) = some b
as_bool v = none

abbrev as_array : Value → Option (List Value)
as_array (array m) = some (values m)
as_array v = none

abbrev as_object : Value → Option (List (Bytes × Value))
as_object (object m) = some (entries m)
as_object v = none

abbrev put : Members → Bytes → Value → Members
put nil key x = cons key x nil
put (cons k v m) key x =
    let rest = put m key x in if bytes_eq k key then cons k x m else cons k v rest

abbrev set_key : Value → Bytes → Value → Option Value
set_key null key x = some (object (cons key x nil))
set_key (object m) key x = some (object (put m key x))
set_key v key x = none

abbrev is_object : Value → Bool
is_object (object m) = true
is_object v = false

unfoldable pub find_document : List (Bytes × Value) → Bytes → Result Bytes Value
find_document [] bytes = err (str "expected value")
find_document ((text, v) ∷ table) bytes =
    let rest = find_document table bytes in if bytes_eq text bytes then ok v else rest

unfoldable pub at_key : Value → Bytes → Value
unfolding get
at_key v key = or_null (get v key)

abbrev pub json : List (Bytes × Value) → Json
json table = record {
  Value = Value;
  null = null;
  string = string;
  number = number;
  array = λ vs. array (items vs);
  object = λ m. object (members m);
  at_key = at_key;
  at_index = at_index;
  set_key = set_key;
  get = get;
  as_str = as_str;
  as_u64 = as_u64;
  as_bool = as_bool;
  as_array = as_array;
  as_object = as_object;
  is_object = is_object;
  from_slice = find_document table;
  to_string = λ v. str "{}";
}

entries-members : (m : List (Bytes × Value)) → entries (members m) ≡ m
entries-members [] = refl
entries-members ((k, v) ∷ m) = ap (λ es. (k, v) ∷ es) (entries-members m)

at_key-members : (k : Bytes) (v : Value) (m : Members) → at_key (object (cons k v m)) k ≡ v
unfolding at_key get lookup
at_key-members k v m = rw ((bytes_eq_iff k k).1 refl) refl

lookup-members : (key : Bytes) (m : List (Bytes × Value)) → lookup key (members m) ≡ value_at key m
unfolding lookup value_at
lookup-members key [] = refl
lookup-members key ((k, v) ∷ m) = rw (lookup-members key m) refl

at_key-value_at :
    (m : List (Bytes × Value)) (key : Bytes) (v : Value)
    → value_at key m ≡ some v
    → at_key (object (members m)) key ≡ v
unfolding at_key get
at_key-value_at m key v h = ap or_null (lookup-members key m ∙ h)

pub json-JsonLaws : (table : List (Bytes × Value)) → JsonLaws (json table)
json-JsonLaws table = record {
  as_str-string = λ s. refl;
  as_str-object = λ m. refl;
  as_object-string = λ s. refl;
  as_object-single = λ k v. refl;
  as_object-value_at = λ m key. (m, ap some (entries-members m), refl);
  at_key-object = λ k v m h. at_key-members k v (members m);
  at_key-value_at = at_key-value_at;
  at_index-array = λ v vs. refl;
  set_key-string = λ s k v. refl;
  as_u64-number = λ n h. refl;
}
