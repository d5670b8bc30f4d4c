-- ===== src/Chrpc/SerialType/Equality.antt =====
-- `chrpc_type_equals` decides equality of types, and a copy is equal to its original.
use chlibs.Common.{
  ◌≤◌, subst, ◌≡◌, ◌↔◌, refl, ap, ap₂, Bool, true, false, ◌&&◌, arith, ◌==◌, eq→==, ==→eq,
}
use chlibs.Chrpc.SerialType.{
  Prim, ChrpcType, FieldTypes, prim, struct, array, no_fields, field, prim_tid, num_fields,
  new_chrpc_type_copy, copy_fields, chrpc_type_equals, fields_equal,
  new_chrpc_primitive_type_from_id, byte,
}
use mathlib.Core.Option.{some}

pub from_id-prim_tid : (p : Prim) → new_chrpc_primitive_type_from_id (prim_tid p) ≡ some p
unfolding new_chrpc_primitive_type_from_id
from_id-prim_tid byte = refl
from_id-prim_tid _ = refl

prim_tid-injective : (p q : Prim) → prim_tid p ≡ prim_tid q → p ≡ q
prim_tid-injective p q e =
    cc (from_id-prim_tid p, from_id-prim_tid q, ap new_chrpc_primitive_type_from_id e)

prim_tid-le : (p : Prim) → prim_tid p ≤ 9
prim_tid-le byte = omega arith
prim_tid-le _ = omega arith

pub and_true : (a b : Bool) → (a && b) ≡ true → (a ≡ true) × (b ≡ true)
and_true true true e = (refl, refl)
and_true true false e = cc
and_true false b e = cc

mutual
  unfolding chrpc_type_equals

  equal_types : (t u : ChrpcType) → chrpc_type_equals t u ≡ true → t ≡ u
  equal_types (prim p) (prim q) e = ap prim (prim_tid-injective p q (==→eq _ _ e))
  equal_types (prim p) (struct gs) e = absurd (omega (arith, prim_tid-le p, ==→eq _ _ e))
  equal_types (prim p) (array u) e = absurd (omega (arith, prim_tid-le p, ==→eq _ _ e))
  equal_types (struct fs) (prim q) e = cc
  equal_types (struct fs) (struct gs) e =
      let (n, h) = and_true (num_fields fs == num_fields gs) _ e in
      ap struct (equal_fields fs gs (==→eq _ _ n) h)
  equal_types (struct fs) (array u) e = cc
  equal_types (array t) (prim q) e = cc
  equal_types (array t) (struct gs) e = cc
  equal_types (array t) (array u) e = ap array (equal_types t u e)

  equal_fields :
      (fs gs : FieldTypes) → num_fields fs ≡ num_fields gs → fields_equal fs gs ≡ true → fs ≡ gs
  equal_fields no_fields no_fields n e = refl
  equal_fields no_fields (field u gs) n e = absurd (omega arith)
  equal_fields (field t fs) no_fields n e = cc
  equal_fields (field t fs) (field u gs) n e =
      let (h, r) = and_true (chrpc_type_equals t u) _ e in
      ap₂ field (equal_types t u h) (equal_fields fs gs (omega arith) r)

mutual
  unfolding chrpc_type_equals

  equals_self : (t : ChrpcType) → chrpc_type_equals t t ≡ true
  equals_self (prim p) = eq→== (prim_tid p) (prim_tid p) refl
  equals_self (array t) = equals_self t
  equals_self (struct fs) = rw (eq→== (num_fields fs) (num_fields fs) refl) (equal_self fs)

  equal_self : (fs : FieldTypes) → fields_equal fs fs ≡ true
  equal_self no_fields = refl
  equal_self (field t fs) = rw (equals_self t) (equal_self fs)

-- The comparison of types succeeds exactly at equal types.
pub chrpc_type_equals_iff : (t u : ChrpcType) → (chrpc_type_equals t u ≡ true) ↔ (t ≡ u)
chrpc_type_equals_iff t u =
    (equal_types t u, λ e. subst (λ v. chrpc_type_equals t v ≡ true) e (equals_self t))

mutual
  unfolding new_chrpc_type_copy

  copy-eq : (t : ChrpcType) → new_chrpc_type_copy t ≡ t
  copy-eq (prim p) = refl
  copy-eq (array t) = ap array (copy-eq t)
  copy-eq (struct fs) = ap struct (copy_fields-eq fs)

  copy_fields-eq : (fs : FieldTypes) → copy_fields fs ≡ fs
  copy_fields-eq no_fields = refl
  copy_fields-eq (field t fs) = ap₂ field (copy-eq t) (copy_fields-eq fs)

-- A copy is the type that was copied, and compares equal to it.
pub new_chrpc_type_copy-eq :
    (t : ChrpcType)
    → (new_chrpc_type_copy t ≡ t) × (chrpc_type_equals (new_chrpc_type_copy t) t ≡ true)
new_chrpc_type_copy-eq t = (copy-eq t, (chrpc_type_equals_iff _ t).1 (copy-eq t))
