-- ===== src/Chrpc/SerialValue/Equality.antt =====
-- `chrpc_inner_value_equals` and `chrpc_value_equals` decide equality of proper values.
use chlibs.Common.{
  ◌≡◌, ◌↔◌, refl, sym, subst, ap, ap₂, Bool, true, false, ◌&&◌, some, arith, length, inl, inr,
  Bool-cases,
}
use chlibs.Chrpc.SerialType.{
  Prim, ChrpcType, FieldTypes, prim, struct, array, no_fields, field, chrpc_type_equals,
}
use chlibs.Chrpc.SerialType.Equality.{and_true, chrpc_type_equals_iff}
use chlibs.Chrpc.SerialValue.{
  InnerValue, num, num_arr, text, text_arr, array_entries, struct_entries, Entries, no_entries,
  entry, Value, count, prim_size,
}
use chlibs.Chrpc.SerialValue.Encoding.{HasType, AllOf, FieldsOf, StringsEnd, EntriesEnd}
use chlibs.Chrpc.SerialValue.RoundTrip.{IsProper}
use chlibs.Chrpc.SerialValue.Comparing.{
  entries_equal, chrpc_inner_value_equals, struct_values_equal, chrpc_value_equals,
}
use chlibs.Chrpc.SerialValue.Blocks.{
  strs_equal_iff, guarded_iff, under, numeric_blocks, string_blocks, blocks_equal_iff,
}

entry_iff :
    {a b : Bool} {v w : InnerValue} {es ds : Entries}
    → (a ≡ true) ↔ (v ≡ w)
    → (b ≡ true) ↔ (es ≡ ds)
    → ((a && b) ≡ true) ↔ (entry v es ≡ entry w ds)
entry_iff {a} {b} {v} {w} {es} {ds} first more = (
  λ h. let (x, y) = and_true a b h in ap₂ entry (first.0 x) (more.0 y),
  λ e. let h : v ≡ w = cc in let r : es ≡ ds = cc in rw (first.1 h, more.1 r) refl,
)

mutual
  unfolding chrpc_inner_value_equals

  values_equal_iff :
      (t : ChrpcType) (v w : InnerValue)
      → HasType t v
      → HasType t w
      → StringsEnd v
      → StringsEnd w
      → (chrpc_inner_value_equals t v w ≡ true) ↔ (v ≡ w)
  values_equal_iff (prim p) (num b) (num c) hv hw sv sw =
      let h = blocks_equal_iff b c (prim_size p) 1 1 (omega (arith, hv.1)) (omega (arith, hw.1)) in
      (λ e. ap num (h.0 e).1, λ e. let eq : b ≡ c = cc in h.1 (refl, eq))
  values_equal_iff (prim p) (text s) (text r) hv hw sv sw = string_blocks s r hv.1 hw.1 sv sw
  values_equal_iff (prim p) (num b) (text r) hv hw sv sw = absurd (cc (hv.0, hw.0))
  values_equal_iff (prim p) (text s) (num c) hv hw sv sw = absurd (cc (hv.0, hw.0))
  values_equal_iff (array (prim p)) (num_arr n b) (num_arr m c) hv hw sv sw =
      rw (hv.0) (numeric_blocks p b c n m hv.2 hw.2)
  values_equal_iff (array (prim p)) (text_arr ss) (text_arr rs) hv hw sv sw = rw (hv.0) (
      guarded_iff (length ss) (length rs) _
        (λ same. under text_arr (λ e. cc) (strs_equal_iff ss rs sv sw same))
        λ e. let eq : ss ≡ rs = cc in ap length eq)
  values_equal_iff (array (prim p)) (num_arr n b) (text_arr rs) hv hw sv sw =
      absurd (cc (hv.0, hw.0))
  values_equal_iff (array (prim p)) (text_arr ss) (num_arr m c) hv hw sv sw =
      absurd (cc (hv.0, hw.0))
  values_equal_iff (array (array t)) (array_entries es) (array_entries ds) hv hw sv sw =
      guarded_iff (count es) (count ds) _
        (λ same.
          under array_entries (λ e. cc) (entries_equal_iff (array t) es ds hv.1 hw.1 sv sw same))
        λ e. let eq : es ≡ ds = cc in ap count eq
  values_equal_iff (array (struct fs)) (array_entries es) (array_entries ds) hv hw sv sw =
      guarded_iff (count es) (count ds) _
        (λ same.
          under array_entries (λ e. cc) (entries_equal_iff (struct fs) es ds hv.1 hw.1 sv sw same))
        λ e. let eq : es ≡ ds = cc in ap count eq
  values_equal_iff (struct fs) (struct_entries es) (struct_entries ds) hv hw sv sw =
      under struct_entries (λ e. cc) (fields_equal_iff fs es ds hv hw sv sw)
  values_equal_iff (prim p) (num b) _ hv hw sv sw = absurd hw
  values_equal_iff (prim p) (text s) _ hv hw sv sw = absurd hw
  values_equal_iff (array (prim p)) (num_arr n b) _ hv hw sv sw = absurd hw
  values_equal_iff (array (prim p)) (text_arr ss) _ hv hw sv sw = absurd hw
  values_equal_iff (array (array t)) (array_entries es) _ hv hw sv sw = absurd hw
  values_equal_iff (array (struct fs)) (array_entries es) _ hv hw sv sw = absurd hw
  values_equal_iff (struct fs) (struct_entries es) _ hv hw sv sw = absurd hw
  values_equal_iff _ _ _ hv hw sv sw = absurd hv

  entries_equal_iff :
      (t : ChrpcType) (es ds : Entries)
      → AllOf t es
      → AllOf t ds
      → EntriesEnd es
      → EntriesEnd ds
      → count es ≡ count ds
      → (entries_equal (chrpc_inner_value_equals t) es ds ≡ true) ↔ (es ≡ ds)
  entries_equal_iff t no_entries no_entries hv hw sv sw n = (λ e. refl, λ e. refl)
  entries_equal_iff t no_entries (entry w ds) hv hw sv sw n = absurd (omega arith)
  entries_equal_iff t (entry v es) no_entries hv hw sv sw n = absurd (omega arith)
  entries_equal_iff t (entry v es) (entry w ds) hv hw sv sw n =
      entry_iff (values_equal_iff t v w hv.0 hw.0 sv.0 sw.0)
        (entries_equal_iff t es ds hv.1 hw.1 sv.1 sw.1 (omega arith))

  fields_equal_iff :
      (fs : FieldTypes) (es ds : Entries)
      → FieldsOf fs es
      → FieldsOf fs ds
      → EntriesEnd es
      → EntriesEnd ds
      → (struct_values_equal fs es ds ≡ true) ↔ (es ≡ ds)
  fields_equal_iff no_fields no_entries no_entries hv hw sv sw = (λ e. refl, λ e. refl)
  fields_equal_iff (field t fs) (entry v es) (entry w ds) hv hw sv sw =
      entry_iff (values_equal_iff t v w hv.0 hw.0 sv.0 sw.0)
        (fields_equal_iff fs es ds hv.1 hw.1 sv.1 sw.1)
  fields_equal_iff no_fields no_entries _ hv hw sv sw = absurd hw
  fields_equal_iff (field t fs) (entry v es) _ hv hw sv sw = absurd hw
  fields_equal_iff _ _ _ hv hw sv sw = absurd hv

-- The comparison of two proper values succeeds exactly if they are equal, where equal pointers are
-- to equal values.
pub chrpc_value_equals_iff :
    (same : Bool) (v w : Value)
    → (same ≡ true → v ≡ w)
    → IsProper v
    → IsProper w
    → (chrpc_value_equals same (some v) (some w) ≡ true) ↔ (v ≡ w)
unfolding chrpc_value_equals
chrpc_value_equals_iff true v w one hv hw = (λ e. one refl, λ e. refl)
chrpc_value_equals_iff false v w one hv hw =
    let types = chrpc_type_equals_iff v.type w.type in
    elim (Bool-cases (chrpc_type_equals v.type w.type)) [
      | inl e ↦
          let eq : v.type ≡ w.type = types.0 e in
          let values =
            values_equal_iff v.type v.value w.value hv.1
              (subst (λ t. HasType t w.value) (sym eq) hw.1) hv.2 hw.2 in
          rw e (
            (
              λ h. ap₂ (λ t x. record { type = t; value = x }) eq (values.0 h),
              λ h. values.1 (ap (λ x. x.value) h),
            ))
      | inr e ↦ rw e ((λ h. cc, λ h. let t = types.1 (ap (λ x. x.type) h) in cc))
    ]
