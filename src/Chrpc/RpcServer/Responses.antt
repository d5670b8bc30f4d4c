-- ===== src/Chrpc/RpcServer/Responses.antt =====
-- What is sent as a response reads back as a value of the type of responses.
use chlibs.Common.{
  ℕ, ◌+◌, ◌-◌, ◌^◌, ◌≤◌, ◌<◌, ◌≡◌, refl, sym, ◌∙◌, ap, ap₂, Option, none, some, List, [], ◌∷◌, ◌++◌,
  arith, length, append-nil, le→not-ltb,
}
use chlibs.Chrpc.SerialType.{Status, success, buffer_too_small, server_internal_error, ok}
use chlibs.Chrpc.SerialType.Encoding.{encode_type}
use chlibs.Chrpc.SerialType.Writes.{chrpc_type_to_buffer-encode}
use chlibs.Chrpc.SerialValue.{
  Value, num, num_arr, struct_entries, entry, no_entries, chrpc_value_to_buffer,
}
use chlibs.Chrpc.SerialValue.Encoding.{encode_value}
use chlibs.Chrpc.SerialValue.Reading.{chrpc_value_from_buffer}
use chlibs.Chrpc.SerialValue.RoundTrip.{
  IsProper, encode_pair, encode_return, ProperReturn, chrpc_value_to_buffer-encode,
  chrpc_value_from_buffer-encode, chrpc_value_to_buffer_with_length-encode,
  chrpc_value_to_buffer_with_length-refused,
}
use chlibs.Chrpc.ChannelFd.{u32_bytes}
use chlibs.Chrpc.RpcServer.{response_type, status_code}
use chlibs.Chrpc.RpcServer.Responding.{error_value, error_to_buffer, response_to_buffer}

-- a status and the bytes of a return value, or of none
abbrev pub response_value : Status → Option Value → Value
response_value st ret = record {
  type = response_type;
  value = struct_entries (
      entry (num (status_code st ∷ []))
        (entry (num_arr (length (encode_return ret)) (encode_return ret)) no_entries));
}

pub response_value-IsProper :
    (st : Status) (ret : Option Value)
    → length (encode_return ret) < 2 ^ 32
    → IsProper (response_value st ret)
response_value-IsProper st ret h = (
  (omega arith, omega arith, (tt, (tt, tt))),
  ((refl, refl), ((refl, h, omega arith), tt)),
  (tt, (tt, tt)),
)

pub length-response :
    (st : Status) (ret : Option Value)
    → length (encode_pair (response_value st ret)) ≡ 10 + length (encode_return ret)
unfolding encode_type encode_value u32_bytes
length-response st ret = omega (arith, ap length (append-nil (encode_return ret)))

error_value-eq : (err : Status) → error_value err ≡ some (response_value err none)
unfolding error_value
error_value-eq success = refl
error_value-eq _ = refl

-- An error is always serialised: it needs ten bytes.
pub error_to_buffer-encode :
    (err : Status) (mms : ℕ)
    → 10 ≤ mms
    → error_to_buffer err mms ≡ (
      success,
      encode_pair (response_value err none),
      some (length (encode_pair (response_value err none))),
    )
unfolding error_to_buffer
error_to_buffer-encode err mms room =
    ap
      (λ o. elim o [
        | none ↦ (server_internal_error, [], none)
        | some v ↦ chrpc_value_to_buffer v mms
      ])
      (error_value-eq err)
    ∙ chrpc_value_to_buffer-encode (response_value err none) mms
        (response_value-IsProper err none (omega arith)) (omega (arith, length-response err none))

-- The bytes of a response that has room.
pub response_to_buffer-encode :
    (ret : Option Value) (mms : ℕ)
    → ProperReturn ret
    → 10 + length (encode_return ret) ≤ mms
    → response_to_buffer response_type ret mms ≡ (
      success,
      encode_pair (response_value success ret),
      some (length (encode_pair (response_value success ret))),
    )
unfolding response_to_buffer encode_type encode_value
response_to_buffer-encode ret mms h room =
    let n = length-response success ret in
    rw
      (
        chrpc_type_to_buffer-encode response_type mms (omega arith),
        le→not-ltb (mms - 5) 1 (omega arith),
        chrpc_value_to_buffer_with_length-encode ret [] (mms - (5 + 1)) h (omega arith),
      )
      (ap₂
        (λ bs k. (
          success,
          encode_type response_type
              ++ (status_code success ∷ (u32_bytes (length (encode_return ret)) ++ bs)),
          some k,
        ))
        (sym (append-nil (encode_return ret)))
        (omega (arith, ap length (append-nil (encode_return ret)))))

-- The response that is put together in the buffer reads back, whatever bytes follow, as the value
-- of a success and the bytes of the return value, if that is proper or none, its encoding is below
-- 2 ^ 32, and the buffer has room for it and ten bytes.
pub response_reads_back :
    (ret : Option Value) (mms : ℕ) (rest : List ℕ)
    → ProperReturn ret
    → length (encode_return ret) < 2 ^ 32
    → 10 + length (encode_return ret) ≤ mms
    → let (status, bytes, written) = response_to_buffer response_type ret mms in
      (status ≡ success)
      × (chrpc_value_from_buffer (bytes ++ rest) ≡ ok (response_value success ret) (length bytes))
      × (written ≡ some (length bytes))
response_reads_back ret mms rest h small room =
    let p = response_value-IsProper success ret small in
    rw (response_to_buffer-encode ret mms h room)
      (refl, chrpc_value_from_buffer-encode (response_value success ret) rest p.0 p.1, refl)

-- A response that has no room is refused.
pub response_to_buffer-refused :
    (ret : Option Value) (mms : ℕ)
    → ProperReturn ret
    → 10 ≤ mms
    → mms < 10 + length (encode_return ret)
    → (response_to_buffer response_type ret mms).0 ≡ buffer_too_small
unfolding response_to_buffer encode_type
response_to_buffer-refused ret mms h least short =
    rw
      (
        chrpc_type_to_buffer-encode response_type mms (omega arith),
        le→not-ltb (mms - 5) 1 (omega arith),
      )
      (chrpc_value_to_buffer_with_length-refused ret [] (mms - (5 + 1)) h (omega arith))
