-- ===== src/Validation/Value.antt =====
-- The values of a payload, as Python's JSON reads them. A number is a decimal: its coefficient and
-- how many of its digits are decimal places.
use Prim.Native.Nat.{◌^◌}
use ot_engineering_demonstra.Base.{
  String, ◌==◌, ℕ, nat_eq, ◌*◌, ◌+◌, Bool, true, false, ◌&&◌, Option, none, some, List, [], ◌∷◌,
  if◌then◌else◌,
}
use ot_engineering_demonstra.Base.Int.{ℤ, pos, pos_part, neg_part}

mutual
  pub data Json : Type 0 where
    null : Json
    bool : Bool → Json
    number : ℤ → ℕ → Json
    text : String → Json
    array : Items → Json
    object : Fields → Json

  pub data Items : Type 0 where
    nil : Items
    cons : Json → Items → Items

  pub data Fields : Type 0 where
    end : Fields
    field : String → Json → Fields → Fields

abbrev pub is_null : Json → Bool
is_null null = true
is_null (bool b) = false
is_null (number c p) = false
is_null (text s) = false
is_null (array xs) = false
is_null (object fs) = false

abbrev pub get_field : String → Fields → Option Json
get_field k end = none
get_field k (field j v fs) = if j == k then some v else get_field k fs

abbrev field_count : Fields → ℕ
field_count end = 0
field_count (field k v fs) = 1 + field_count fs

-- The value of `c` over ten to the `p`.
abbrev same_decimal : ℤ → ℕ → ℤ → ℕ → Bool
same_decimal c p d q =
    nat_eq (pos_part c * 10 ^ q + neg_part d * 10 ^ p) (pos_part d * 10 ^ p + neg_part c * 10 ^ q)

abbrev truth : Bool → ℤ
truth true = pos 1
truth false = pos 0

-- `a == b`: a Boolean is the number 0 or 1, and the order of a dict's fields does not count.
unfoldable mutual
  pub json_equal : Json → Json → Bool
  json_equal null null = true
  json_equal (bool a) (bool b) = nat_eq (pos_part (truth a)) (pos_part (truth b))
  json_equal (bool a) (number d q) = same_decimal (truth a) 0 d q
  json_equal (number c p) (bool b) = same_decimal c p (truth b) 0
  json_equal (number c p) (number d q) = same_decimal c p d q
  json_equal (text a) (text b) = a == b
  json_equal (array xs) (array ys) = items_equal xs ys
  json_equal (object fs) (object gs) =
      nat_eq (field_count fs) (field_count gs) && fields_equal fs gs
  json_equal a b = false

  pub items_equal : Items → Items → Bool
  items_equal nil nil = true
  items_equal (cons x xs) (cons y ys) = json_equal x y && items_equal xs ys
  items_equal xs ys = false

  pub fields_equal : Fields → Fields → Bool
  fields_equal end gs = true
  fields_equal (field k v fs) gs =
      elim (get_field k gs) [ none ↦ false | some w ↦ json_equal v w ] && fields_equal fs gs

abbrev items_list : Items → List Json
items_list nil = []
items_list (cons x xs) = x ∷ items_list xs

abbrev key_list : Fields → List Json
key_list end = []
key_list (field k v fs) = text k ∷ key_list fs

abbrev character_list : String → List Json
character_list String.[] = []
character_list (String.◌∷◌ c s) = text (String.◌∷◌ c "") ∷ character_list s

-- What a loop over a value runs through, `none` where Python raises TypeError.
unfoldable pub iterate : Json → Option (List Json)
iterate null = none
iterate (bool b) = none
iterate (number c p) = none
iterate (text s) = some (character_list s)
iterate (array xs) = some (items_list xs)
iterate (object fs) = some (key_list fs)

abbrev pub array_of : List Json → Items
array_of [] = nil
array_of (x ∷ xs) = cons x (array_of xs)
