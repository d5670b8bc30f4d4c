-- ===== src/Chrpc/SerialValue/Made.antt =====
-- What the constructors make are proper values of the types they name.
use chlibs.Common.{
  ℕ, suc, ◌^◌, ◌≤◌, ◌<◌, ◌≡◌, ◌↔◌, refl, sym, subst, ap, ap₂, ◌∙◌, true, some, List, [], ◌∷◌, map,
  arith, length, ltb, ltb→lt, not-ltb, ◌==◌, inl, inr, Bool-cases,
}
use chlibs.Chrpc.SerialType.{
  Prim, ChrpcType, FieldTypes, prim, struct, array, no_fields, field, chrpc_type_equals, num_fields,
  max_struct_fields,
}
use chlibs.Chrpc.SerialType.Encoding.{AllWellFormed}
use chlibs.Chrpc.SerialType.Equality.{and_true, chrpc_type_equals_iff}
use chlibs.Chrpc.SerialValue.{
  struct_entries, array_entries, InnerValue, Entries, no_entries, entry, Value, c_str, count,
}
use chlibs.Chrpc.SerialValue.Encoding.{
  HasType, AllOf, FieldsOf, IsTerminated, AllTerminated, EntriesEnd,
}
use chlibs.Chrpc.SerialValue.RoundTrip.{IsProper}
use chlibs.Chrpc.SerialValue.Making.{
  str_copy, is_composite, all_of_type, values_of, types_of, new_chrpc_composite_nempty_array_value,
  new_chrpc_struct_value_va,
}

pub str_copy-IsTerminated : (s : List ℕ) → IsTerminated (str_copy s)
unfolding str_copy c_str
str_copy-IsTerminated [] = refl
str_copy-IsTerminated (c ∷ cs) = elim (Bool-cases (c == 0)) [
  | inl e ↦ rw e refl
  | inr e ↦ rw (e, e) (ap (λ r. c ∷ r) (str_copy-IsTerminated cs))
]

-- Copied strings are terminated.
AllTerminated-copies : (ss : List (List ℕ)) → AllTerminated (map str_copy ss)
AllTerminated-copies [] = tt
AllTerminated-copies (s ∷ ss) = (str_copy-IsTerminated s, AllTerminated-copies ss)

-- The values are proper.
abbrev pub AllProper : List Value → Type 0
AllProper [] = Unit {0}
AllProper (v ∷ vs) = IsProper v × AllProper vs

num_fields-types_of : (vs : List Value) → num_fields (types_of vs) ≡ length vs
unfolding types_of
num_fields-types_of [] = refl
num_fields-types_of (v ∷ vs) = ap suc (num_fields-types_of vs)

FieldsOf-proper :
    (vs : List Value)
    → AllProper vs
    → AllWellFormed (types_of vs)
      × FieldsOf (types_of vs) (values_of vs)
      × EntriesEnd (values_of vs)
unfolding types_of values_of
FieldsOf-proper [] h = (tt, tt, tt)
FieldsOf-proper (v ∷ vs) h =
    let r = FieldsOf-proper vs h.1 in let p = h.0 in ((p.0, r.0), (p.1, r.1), (p.2, r.2))

-- The members and the types of the fields as lists.
abbrev pub entries_of : List InnerValue → Entries
entries_of [] = no_entries
entries_of (v ∷ vs) = entry v (entries_of vs)

abbrev pub fields_of : List ChrpcType → FieldTypes
fields_of [] = no_fields
fields_of (t ∷ ts) = field t (fields_of ts)

values_of-eq : (vs : List Value) → values_of vs ≡ entries_of (map (λ v. v.value) vs)
unfolding values_of
values_of-eq [] = refl
values_of-eq (v ∷ vs) = ap (entry v.value) (values_of-eq vs)

types_of-eq : (vs : List Value) → types_of vs ≡ fields_of (map (λ v. v.type) vs)
unfolding types_of
types_of-eq [] = refl
types_of-eq (v ∷ vs) = ap (field v.type) (types_of-eq vs)

-- The struct of the values in order.
abbrev pub struct_of : List Value → Value
struct_of vs = record {
  type = struct (fields_of (map (λ v. v.type) vs));
  value = struct_entries (entries_of (map (λ v. v.value) vs));
}

struct_of-eq :
    (vs : List Value)
    → record { type = struct (types_of vs); value = struct_entries (values_of vs) } ≡ struct_of vs
struct_of-eq vs =
    ap₂ (λ ts es. record { type = struct ts; value = struct_entries es }) (types_of-eq vs)
      (values_of-eq vs)

-- The array of the values in order, of cells of type `t`.
abbrev pub array_of : ChrpcType → List Value → Value
array_of t vs = record {
  type = array t;
  value = array_entries (entries_of (map (λ v. v.value) vs));
}

array_of-eq :
    (t : ChrpcType) (vs : List Value)
    → record { type = array t; value = array_entries (values_of vs) } ≡ array_of t vs
array_of-eq t vs = ap (λ es. record { type = array t; value = array_entries es }) (values_of-eq vs)

-- Arrays and structs.
abbrev pub Composite : ChrpcType → Type 0
Composite (prim p) = ⊥
Composite (array t) = Unit {0}
Composite (struct fs) = Unit {0}

is_composite_iff : (t : ChrpcType) → (is_composite t ≡ true) ↔ Composite t
is_composite_iff (prim p) = (λ e. cc, λ h. absurd h)
is_composite_iff (array t) = (λ e. tt, λ h. refl)
is_composite_iff (struct fs) = (λ e. tt, λ h. refl)

-- A struct is made of proper values exactly if they are 1 to 64, the limit that the code sets, and
-- it is the proper value of their types and members in order.
pub new_chrpc_struct_value_va_iff :
    (args : List Value) (r : Value)
    → AllProper args
    → (new_chrpc_struct_value_va args ≡ some r)
      ↔ ((1 ≤ length args) × (length args ≤ max_struct_fields) × (r ≡ struct_of args) × IsProper r)
unfolding new_chrpc_struct_value_va
new_chrpc_struct_value_va_iff args r h = elim (Bool-cases (ltb (length args) 1)) [
  | inl e ↦ rw e (λ q. cc, λ q. absurd (omega (arith, q.0, ltb→lt _ _ e)))
  | inr e ↦ elim (Bool-cases (ltb max_struct_fields (length args))) [
    | inl f ↦ rw (e, f) (λ q. cc, λ q. absurd (omega (arith, q.1, ltb→lt _ _ f)))
    | inr f ↦
        let low = not-ltb _ _ e in
        let high = not-ltb _ _ f in
        let n = num_fields-types_of args in
        let (wf, typed, ends) = FieldsOf-proper args h in
        let made : Value = record {
          type = struct (types_of args);
          value = struct_entries (values_of args);
        } in
        let proper : IsProper made = ((omega arith, omega arith, wf), typed, ends) in
        rw (e, f)
          (
            λ q.
                let same : r ≡ made = cc in
                (low, high, same ∙ struct_of-eq args, subst IsProper (sym same) proper),
            λ q. ap some (struct_of-eq args ∙ sym q.2),
          )
  ]
]

-- The types of all values are `t`.
abbrev pub SameType : ChrpcType → List Value → Type 0
SameType t [] = Unit {0}
SameType t (v ∷ vs) = (t ≡ v.type) × SameType t vs

all_of_type_iff : (t : ChrpcType) (vs : List Value) → (all_of_type t vs ≡ true) ↔ SameType t vs
unfolding all_of_type
all_of_type_iff t [] = (λ e. tt, λ h. refl)
all_of_type_iff t (v ∷ vs) =
    let first = chrpc_type_equals_iff t v.type in
    let more = all_of_type_iff t vs in
    (
      λ e. let (x, y) = and_true (chrpc_type_equals t v.type) _ e in (first.0 x, more.0 y),
      λ h. rw (first.1 h.0, more.1 h.1) refl,
    )

entries_of_proper :
    (t : ChrpcType) (vs : List Value)
    → AllProper vs
    → SameType t vs
    → AllOf t (values_of vs) × EntriesEnd (values_of vs) × (count (values_of vs) ≡ length vs)
unfolding values_of
entries_of_proper t [] h same = (tt, tt, refl)
entries_of_proper t (v ∷ vs) h same =
    let (all, ends, n) = entries_of_proper t vs h.1 same.1 in
    let p = h.0 in ((subst (λ u. HasType u v.value) (sym same.0) p.1, all), (p.2, ends), ap suc n)

composite_array :
    (t : ChrpcType) (es : Entries)
    → is_composite t ≡ true
    → count es < 2 ^ 32
    → AllOf t es
    → HasType (array t) (array_entries es)
composite_array (prim p) es e n all = cc
composite_array (array t) es e n all = (n, all)
composite_array (struct fs) es e n all = (n, all)

-- An array of composites is made of proper values, fewer than 2 ^ 32, exactly if the first is an
-- array or a struct and the others have its type, and it is the proper value of that type with
-- their members in order.
pub new_chrpc_composite_nempty_array_value_iff :
    (v : Value) (vs : List Value) (r : Value)
    → AllProper (v ∷ vs)
    → length (v ∷ vs) < 2 ^ 32
    → (new_chrpc_composite_nempty_array_value (v ∷ vs) ≡ some r)
      ↔ (Composite v.type × SameType v.type vs × (r ≡ array_of v.type (v ∷ vs)) × IsProper r)
unfolding new_chrpc_composite_nempty_array_value
new_chrpc_composite_nempty_array_value_iff v vs r h short =
    elim (Bool-cases (is_composite v.type)) [
      | inr e ↦ rw e (λ q. cc, λ q. let c = (is_composite_iff v.type).1 q.0 in cc)
      | inl e ↦ elim (Bool-cases (all_of_type v.type vs)) [
        | inr f ↦ rw (e, f) (λ q. cc, λ q. let c = (all_of_type_iff v.type vs).1 q.1 in cc)
        | inl f ↦
            let same = (all_of_type_iff v.type vs).0 f in
            let (all, ends, n) = entries_of_proper v.type (v ∷ vs) h (refl, same) in
            let made : Value = record {
              type = array v.type;
              value = array_entries (values_of (v ∷ vs));
            } in
            let typed = composite_array v.type (values_of (v ∷ vs)) e (omega arith) all in
            let proper : IsProper made = (h.0.0, typed, ends) in
            rw (e, f)
              (
                λ q.
                    let eq : r ≡ made = cc in
                    let form = array_of-eq v.type (v ∷ vs) in
                    (
                      (is_composite_iff v.type).0 e,
                      same,
                      eq ∙ form,
                      subst IsProper (sym eq) proper,
                    ),
                λ q. ap some (array_of-eq v.type (v ∷ vs) ∙ sym q.2),
              )
      ]
    ]
