-- ===== src/Chrpc/SerialValue/Making.antt =====
-- The constructors of strings, arrays of composites and structs: chrpc/src/serial_value.c. The
-- arguments of a variadic function are the list of what stands before its `NULL`. The pairs and
-- lists that the constructors free are not modelled.
use chlibs.Common.{
  ℕ, Bool, true, false, ◌&&◌, ◌||◌, not, Option, none, some, List, [], ◌∷◌, ◌++◌, map, length, ltb,
  if◌then◌else◌,
}
use chlibs.Chrpc.SerialType.{
  str, ChrpcType, FieldTypes, prim, struct, array, no_fields, field, max_struct_fields,
  chrpc_type_equals,
}
use chlibs.Chrpc.SerialValue.{
  text, text_arr, array_entries, struct_entries, Entries, no_entries, entry, Value, c_str,
}

-- `strcpy` into a block of `strlen + 1` cells
unfoldable pub str_copy : List ℕ → List ℕ
unfolding c_str
str_copy s = c_str s ++ (0 ∷ [])

unfoldable pub new_chrpc_str_value : List ℕ → Value
unfolding str_copy
new_chrpc_str_value str_val = record { type = prim str; value = text (str_copy str_val) }

unfoldable pub new_chrpc_str_array_value : List (List ℕ) → Value
new_chrpc_str_array_value str_array_val = record {
  type = array (prim str);
  value = text_arr str_array_val;
}

unfoldable pub new_chrpc_str_array_value_va : List (List ℕ) → Value
unfolding str_copy new_chrpc_str_array_value
new_chrpc_str_array_value_va args = new_chrpc_str_array_value (map str_copy args)

abbrev pub is_composite : ChrpcType → Bool
is_composite (prim p) = false
is_composite _ = true

unfoldable pub new_chrpc_composite_empty_array_value : ChrpcType → Option Value
new_chrpc_composite_empty_array_value t =
    if is_composite t
    then some record { type = array t; value = array_entries no_entries }
    else none

-- the loop that compares the types of the entries
unfoldable pub all_of_type : ChrpcType → List Value → Bool
all_of_type t [] = true
all_of_type t (v ∷ vs) = chrpc_type_equals t v.type && all_of_type t vs

-- the loop that collects the members
unfoldable pub values_of : List Value → Entries
values_of [] = no_entries
values_of (v ∷ vs) = entry v.value (values_of vs)

unfoldable pub new_chrpc_composite_nempty_array_value : List Value → Option Value
unfolding all_of_type values_of
new_chrpc_composite_nempty_array_value [] = none
new_chrpc_composite_nempty_array_value (v ∷ vs) =
    if not (is_composite v.type)
    then none
    else if not (all_of_type v.type vs)
    then none
    else some record { type = array v.type; value = array_entries (values_of (v ∷ vs)) }

unfoldable pub new_chrpc_composite_nempty_array_value_va : List Value → Option Value
unfolding new_chrpc_composite_nempty_array_value
new_chrpc_composite_nempty_array_value_va args =
    if ltb (length args) 1 then none else new_chrpc_composite_nempty_array_value args

-- the loop that collects the types
unfoldable pub types_of : List Value → FieldTypes
types_of [] = no_fields
types_of (v ∷ vs) = field v.type (types_of vs)

unfoldable pub new_chrpc_struct_value : List Value → Option Value
unfolding types_of values_of
new_chrpc_struct_value struct_fields =
    if ltb (length struct_fields) 1 || ltb max_struct_fields (length struct_fields)
    then none
    else some record {
      type = struct (types_of struct_fields);
      value = struct_entries (values_of struct_fields);
    }

unfoldable pub new_chrpc_struct_value_va : List Value → Option Value
unfolding new_chrpc_struct_value
new_chrpc_struct_value_va args =
    if ltb (length args) 1 || ltb max_struct_fields (length args)
    then none
    else new_chrpc_struct_value args
