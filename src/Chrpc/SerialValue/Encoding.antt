-- ===== src/Chrpc/SerialValue/Encoding.antt =====
-- The wire format of values, after the grammar in chrpc/include/chrpc/serial_value.h: the bytes of a
-- number; a length in front of the bytes of a string, NUL included, and in front of the cells of an
-- array; and the fields of a struct in order. Which members belong to which type.
use chlibs.Common.{ℕ, ◌*◌, ◌^◌, ◌<◌, ◌≡◌, true, false, List, [], ◌∷◌, ◌++◌, length}
use chlibs.Chrpc.SerialType.{Prim, ChrpcType, FieldTypes, prim, struct, array, no_fields, field}
use chlibs.Chrpc.SerialValue.{
  InnerValue, num, num_arr, text, text_arr, array_entries, struct_entries, Entries, no_entries,
  entry, count, c_str, is_numeric, prim_size,
}
use chlibs.Chrpc.ChannelFd.{u32_bytes}

unfoldable pub encode_str : List ℕ → List ℕ
encode_str s = u32_bytes (length s) ++ s

unfoldable pub encode_strs : List (List ℕ) → List ℕ
unfolding encode_str
encode_strs [] = []
encode_strs (s ∷ ss) = encode_str s ++ encode_strs ss

unfoldable mutual
  unfolding encode_strs

  pub encode_value : InnerValue → List ℕ
  encode_value (num b) = b
  encode_value (num_arr n b) = u32_bytes n ++ b
  encode_value (text s) = encode_str s
  encode_value (text_arr ss) = u32_bytes (length ss) ++ encode_strs ss
  encode_value (array_entries es) = u32_bytes (count es) ++ encode_entries es
  encode_value (struct_entries es) = encode_entries es

  pub encode_entries : Entries → List ℕ
  encode_entries no_entries = []
  encode_entries (entry v es) = encode_value v ++ encode_entries es

abbrev pub AllShort : List (List ℕ) → Type 0
AllShort [] = Unit {0}
AllShort (s ∷ ss) = (length s < 2 ^ 32) × AllShort ss

-- The member is the one that the type means, its blocks have the sizes that the type says, and its
-- lengths fit 32 bits.
abbrev mutual
  pub HasType : ChrpcType → InnerValue → Type 0
  HasType (prim p) (num b) = (is_numeric p ≡ true) × (length b ≡ prim_size p)
  HasType (prim p) (text s) = (is_numeric p ≡ false) × (length s < 2 ^ 32)
  HasType (array (prim p)) (num_arr n b) =
      (is_numeric p ≡ true) × (n < 2 ^ 32) × (length b ≡ prim_size p * n)
  HasType (array (prim p)) (text_arr ss) =
      (is_numeric p ≡ false) × (length ss < 2 ^ 32) × AllShort ss
  HasType (array (array t)) (array_entries es) = (count es < 2 ^ 32) × AllOf (array t) es
  HasType (array (struct fs)) (array_entries es) = (count es < 2 ^ 32) × AllOf (struct fs) es
  HasType (struct fs) (struct_entries es) = FieldsOf fs es
  HasType _ _ = ⊥

  pub AllOf : ChrpcType → Entries → Type 0
  AllOf t no_entries = Unit {0}
  AllOf t (entry v es) = HasType t v × AllOf t es

  pub FieldsOf : FieldTypes → Entries → Type 0
  FieldsOf no_fields no_entries = Unit {0}
  FieldsOf (field t fs) (entry v es) = HasType t v × FieldsOf fs es
  FieldsOf _ _ = ⊥

-- A block that ends with its only NUL.
abbrev pub IsTerminated : List ℕ → Type 0
IsTerminated s = s ≡ c_str s ++ (0 ∷ [])

abbrev pub AllTerminated : List (List ℕ) → Type 0
AllTerminated [] = Unit {0}
AllTerminated (s ∷ ss) = IsTerminated s × AllTerminated ss

-- Every string in the value is terminated.
abbrev mutual
  pub StringsEnd : InnerValue → Type 0
  StringsEnd (num b) = Unit {0}
  StringsEnd (num_arr n b) = Unit {0}
  StringsEnd (text s) = IsTerminated s
  StringsEnd (text_arr ss) = AllTerminated ss
  StringsEnd (array_entries es) = EntriesEnd es
  StringsEnd (struct_entries es) = EntriesEnd es

  pub EntriesEnd : Entries → Type 0
  EntriesEnd no_entries = Unit {0}
  EntriesEnd (entry v es) = StringsEnd v × EntriesEnd es

abbrev pub AllBytes : List ℕ → Type 0
AllBytes [] = Unit {0}
AllBytes (c ∷ cs) = (c < 256) × AllBytes cs
