-- ===== src/Chrpc/RpcServer/Arguments.antt =====
-- The arguments that an endpoint is called with have the types of its signature.
use chlibs.Common.{
  ℕ, ◌+◌, ◌≡◌, refl, ap, ap₂, sym, ◌∙◌, Bool, true, false, List, [], ◌∷◌, map, length, arith,
  if◌then◌else◌,
}
use chlibs.Chrpc.SerialType.{
  ChrpcType, chrpc_type_equals, FromBuffer, ok, failed, out_of_fuel, argument_mismatch, then_read,
}
use chlibs.Chrpc.SerialType.Equality.{chrpc_type_equals_iff}
use chlibs.Chrpc.SerialValue.{Entries, no_entries, entry, Value, count}
use chlibs.Chrpc.SerialValue.Reading.{chrpc_value_from_buffer}
use chlibs.Chrpc.RpcServer.Handling.{parse_args, field_buf}

abbrev types : List Value → List ChrpcType
types vs = map (λ v. v.type) vs

-- what the loop does with one value that was read, and with the rest
one_arg :
    (t : ChrpcType) (ts : List ChrpcType) (f : Value) (k : ℕ) (b : Bool)
    (rest : FromBuffer (List Value)) (vs : List Value) (n : ℕ)
    → chrpc_type_equals t f.type ≡ b
    → ((ws : List Value) (m : ℕ) → rest ≡ ok ws m → types ws ≡ ts)
    → (if b then (then_read rest λ fs m. ok (f ∷ fs) (k + m)) else failed argument_mismatch)
      ≡ ok vs n
    → types vs ≡ t ∷ ts
one_arg t ts f k false rest vs n b h e = cc
one_arg t ts f k true (failed st) vs n b h e = cc
one_arg t ts f k true out_of_fuel vs n b h e = cc
one_arg t ts f k true (ok fs m) vs n b h e =
    let same : vs ≡ f ∷ fs = cc in
    ap types same ∙ ap₂ (λ u us. u ∷ us) (sym ((chrpc_type_equals_iff t f.type).0 b)) (h fs m refl)

arg_read :
    (t : ChrpcType) (ts : List ChrpcType) (r : FromBuffer Value) (rest : FromBuffer (List Value))
    (vs : List Value) (n : ℕ)
    → ((ws : List Value) (m : ℕ) → rest ≡ ok ws m → types ws ≡ ts)
    → (then_read r λ f k.
        if chrpc_type_equals t f.type
        then (then_read rest λ fs m. ok (f ∷ fs) (k + m))
        else failed argument_mismatch)
      ≡ ok vs n
    → types vs ≡ t ∷ ts
arg_read t ts (ok f k) rest vs n h e = one_arg t ts f k _ rest vs n refl h e
arg_read t ts (failed st) rest vs n h e = cc
arg_read t ts out_of_fuel rest vs n h e = cc

-- Arguments that were parsed for an endpoint, as many as it has, have the types of its signature
-- in order.
pub parse_args-types :
    (ts : List ChrpcType) (es : Entries) (args : List Value) (k : ℕ)
    → length ts ≡ count es
    → parse_args ts es ≡ ok args k
    → map (λ v. v.type) args ≡ ts
unfolding parse_args
parse_args-types [] no_entries args k n e = let none : args ≡ [] = cc in ap types none
parse_args-types [] (entry v es) args k n e = absurd (omega arith)
parse_args-types (t ∷ ts) no_entries args k n e = absurd (omega arith)
parse_args-types (t ∷ ts) (entry v es) args k n e =
    arg_read t ts (chrpc_value_from_buffer (field_buf v)) (parse_args ts es) args k
      (λ ws m f. parse_args-types ts es ws m (omega arith) f) e
