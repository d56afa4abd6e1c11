-- ===== src/Policy/Json.antt =====
-- Python's operations on JSON values that policy/governance.py uses: truth, equality, `str`, `int`
-- and iteration.
use aura_claw.Prelude.{
  ℕ, zero, suc, ◌+◌, String, Bool, true, false, not, ◌&&◌, Option, none, some, List, [], ◌∷◌, leb,
  if◌then◌else◌, ◌==◌, option_eq, pair_eq, triple_eq, string_eq, nat_eq, Error, Result, ok, err,
}
use aura_claw.Prelude.Dict.{Dict}
use aura_claw.Prelude.Text.{is_truthy, decimal, uncons, char_count}
use aura_claw.Contracts.{Value, Fields, Items}

unfoldable pub truthy : Value → Bool
truthy Value.null = false
truthy (Value.str s) = is_truthy s
truthy (Value.bool b) = b
truthy (Value.num n) = not (leb n 0)
truthy (Value.obj Fields.end) = false
truthy (Value.obj (Fields.field key value rest)) = true
truthy (Value.arr Items.nil) = false
truthy (Value.arr (Items.cons first rest)) = true

abbrev int_of : Bool → ℕ
int_of true = 1
int_of false = 0

abbrev size : Fields → ℕ
size Fields.end = 0
size (Fields.field key value rest) = size rest + 1

unfoldable pub lookup : String → Fields → Option Value
lookup key Fields.end = none
lookup key (Fields.field k value rest) = if k == key then some value else lookup key rest

-- `v == w`: a dict has no order, and True is 1.
unfoldable mutual
  unfolding lookup

  pub equals : Value → Value → Bool
  equals Value.null Value.null = true
  equals (Value.str s) (Value.str t) = s == t
  equals (Value.bool b) (Value.bool c) = int_of b == int_of c
  equals (Value.bool b) (Value.num n) = int_of b == n
  equals (Value.num n) (Value.bool b) = n == int_of b
  equals (Value.num n) (Value.num m) = n == m
  equals (Value.obj f) (Value.obj g) = size f == size g && has_fields f g
  equals (Value.arr i) (Value.arr j) = same_items i j
  equals _ _ = false

  pub same_items : Items → Items → Bool
  same_items Items.nil Items.nil = true
  same_items (Items.cons v i) (Items.cons w j) = equals v w && same_items i j
  same_items _ _ = false

  pub has_fields : Fields → Fields → Bool
  has_fields Fields.end g = true
  has_fields (Fields.field key v rest) g =
      elim (lookup key g) [ none ↦ false | some w ↦ equals v w ] && has_fields rest g

abbrev pub fields_of : Dict String Value → Fields
fields_of [] = Fields.end
fields_of ((key, value) ∷ rest) = Fields.field key value (fields_of rest)

unfoldable pub same_dict : Dict String Value → Dict String Value → Bool
same_dict a b = equals (Value.obj (fields_of a)) (Value.obj (fields_of b))

abbrev pub items_of : List String → Items
items_of [] = Items.nil
items_of (s ∷ rest) = Items.cons (Value.str s) (items_of rest)

-- `int(v)`, where `parse_int` reads a text
unfoldable pub as_int : (parse_int : String → Result ℕ) → Value → Result ℕ
as_int parse_int (Value.num n) = ok n
as_int parse_int (Value.bool b) = ok (int_of b)
as_int parse_int (Value.str s) = parse_int s
as_int parse_int _ = err Error.type_error

letters_from : (rounds : ℕ) → String → List String
letters_from zero s = []
letters_from (suc rounds) s = elim (uncons s) [
  | none ↦ []
  | some (c, rest) ↦ c ∷ letters_from rounds rest
]

-- the characters of a text
unfoldable pub letters : String → List String
unfolding letters_from
letters s = letters_from (char_count s) s

module _ (repr : Value → String) where
  -- `str(v)`; `repr` writes a list or a dict.
  unfoldable pub as_str : Value → String
  as_str (Value.str s) = s
  as_str Value.null = "None"
  as_str (Value.bool true) = "True"
  as_str (Value.bool false) = "False"
  as_str (Value.num n) = decimal n
  as_str v = repr v

  unfoldable pub texts_of : Items → List String
  texts_of Items.nil = []
  texts_of (Items.cons v rest) = as_str v ∷ texts_of rest

  unfoldable pub keys_of : Fields → List String
  keys_of Fields.end = []
  keys_of (Fields.field key v rest) = key ∷ keys_of rest

  -- `tuple(str(x) for x in v)`
  unfoldable pub as_texts : Value → Result (List String)
  as_texts (Value.arr items) = ok (texts_of items)
  as_texts (Value.obj fields) = ok (keys_of fields)
  as_texts (Value.str s) = ok (letters s)
  as_texts _ = err Error.type_error
