-- ===== src/Manifest/Toml.antt =====
-- The values that `tomllib.loads` gives. A float counts millionths; a date or a time is its text.
use winter_service_tmux.Prelude.{
  ◌≡◌, refl, ap, ◌↔◌, Bool, true, false, not, Option, none, some, List, [], ◌∷◌, arith, Eq, ◌==◌,
  ==_iff, nat_eq, Text, text_eq,
}
use winter_service_tmux.Prelude.Int.{ℤ, pos, int_eq, scale}
use winter_service_tmux.Prelude.Dict.{Dict}

mutual
  pub data Value : Type 0 where
    text : Text → Value
    integer : ℤ → Value
    float : ℤ → Value
    boolean : Bool → Value
    date : Text → Value
    array : Values → Value
    table : Table → Value

  pub data Values : Type 0 where
    no_more : Values
    item : Value → Values → Values

  pub data Table : Type 0 where
    no_entry : Table
    entry : Text → Value → Table → Table

-- a document, or an entry of an array of tables
abbrev pub Fields : Type 0
Fields = Dict Text Value

unfoldable pub items : Values → List Value
items no_more = []
items (item v vs) = v ∷ items vs

unfoldable pub fields : Table → Fields
fields no_entry = []
fields (entry k v t) = (k, v) ∷ fields t

unfoldable pub table_of : Fields → Table
table_of [] = no_entry
table_of ((k, v) ∷ d) = entry k v (table_of d)

pub fields-table_of : (d : Fields) → fields (table_of d) ≡ d
unfolding fields table_of
fields-table_of [] = refl
fields-table_of ((k, v) ∷ d) = ap (λ r. (k, v) ∷ r) (fields-table_of d)

-- `bool` as the number it is
abbrev pub bool_int : Bool → ℤ
bool_int true = pos 1
bool_int false = pos 0

-- `not v`
abbrev pub is_falsy : Value → Bool
is_falsy (text s) = s == []
is_falsy (integer n) = n == pos 0
is_falsy (float n) = n == pos 0
is_falsy (boolean b) = not b
is_falsy (date _) = false
is_falsy (array no_more) = true
is_falsy (array (item _ _)) = false
is_falsy (table no_entry) = true
is_falsy (table (entry _ _ _)) = false

-- What a value is as the key of a `dict`: `1`, `1.0` and `True` are one key.
pub data Key : Type 0 where
  of_text : Text → Key
  of_number : ℤ → Key
  of_date : Text → Key

-- `none` for the values without a hash
unfoldable pub key_of : Value → Option Key
unfolding scale
key_of (text s) = some (of_text s)
key_of (integer n) = some (of_number (scale 1000000 n))
key_of (float n) = some (of_number n)
key_of (boolean b) = some (of_number (scale 1000000 (bool_int b)))
key_of (date s) = some (of_date s)
key_of (array _) = none
key_of (table _) = none

abbrev pub key_beq : Key → Key → Bool
key_beq (of_text s) (of_text t) = s == t
key_beq (of_number m) (of_number n) = m == n
key_beq (of_date s) (of_date t) = s == t
key_beq _ _ = false

pub key_beq_iff : (a b : Key) → (key_beq a b ≡ true) ↔ (a ≡ b)
key_beq_iff (of_text s) (of_text t) = ground (arith, ==_iff s t)
key_beq_iff (of_number m) (of_number n) = ground (arith, ==_iff m n)
key_beq_iff (of_date s) (of_date t) = ground (arith, ==_iff s t)
key_beq_iff (of_text s) (of_number n) = ground arith
key_beq_iff (of_text s) (of_date t) = ground arith
key_beq_iff (of_number m) (of_text t) = ground arith
key_beq_iff (of_number m) (of_date t) = ground arith
key_beq_iff (of_date s) (of_text t) = ground arith
key_beq_iff (of_date s) (of_number n) = ground arith

instance abbrev pub key_eq : Eq Key
key_eq = record { beq = key_beq; beq_iff = key_beq_iff }
