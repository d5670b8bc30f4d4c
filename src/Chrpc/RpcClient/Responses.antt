-- ===== src/Chrpc/RpcClient/Responses.antt =====
-- What the server writes as a response is what the client reads.
use chlibs.Common.{
  ℕ, ◌^◌, ◌<◌, ◌≡◌, refl, Option, none, some, List, ◌++◌, arith, length, length-append, take_all,
  lt→ltb,
}
use chlibs.Chrpc.SerialType.{success}
use chlibs.Chrpc.SerialType.Encoding.{encode_type, length-encode_type_pos}
use chlibs.Chrpc.SerialType.Equality.{chrpc_type_equals_iff}
use chlibs.Chrpc.SerialValue.{Value}
use chlibs.Chrpc.SerialValue.Encoding.{encode_value}
use chlibs.Chrpc.SerialValue.Reading.{chrpc_value_from_buffer}
use chlibs.Chrpc.SerialValue.RoundTrip.{
  encode_pair, encode_return, ProperReturn, chrpc_value_from_buffer-encode,
}
use chlibs.Chrpc.RpcServer.{response_type, status_code}
use chlibs.Chrpc.RpcServer.Responses.{response_value, response_value-IsProper}
use chlibs.Chrpc.RpcClient.{read_response, read_return}
use chlibs.Chrpc.RpcClient.Requests.{one_read_back}

read_return-encode :
    (ret : Option Value)
    → ProperReturn ret
    → read_return (length (encode_return ret), encode_return ret) ≡ (status_code success, some ret)
unfolding read_return
read_return-encode none h = refl
read_return-encode (some v) h =
    let split = length-append (encode_type v.type) (encode_value v.value) in
    let positive = length-encode_type_pos v.type in
    rw
      (lt→ltb 0 (length (encode_pair v)) (omega arith), take_all (encode_pair v), one_read_back v h)
      refl

-- The encoded response is read back whatever bytes follow it.
pub read_response-encode :
    (ret : Option Value) (stale : List ℕ)
    → ProperReturn ret
    → length (encode_return ret) < 2 ^ 32
    → read_response response_type
        (chrpc_value_from_buffer (encode_pair (response_value success ret) ++ stale))
      ≡ (status_code success, some ret)
unfolding read_response
read_response-encode ret stale h small =
    let proper = response_value-IsProper success ret small in
    rw
      (
        chrpc_value_from_buffer-encode (response_value success ret) stale proper.0 proper.1,
        (chrpc_type_equals_iff response_type response_type).1 refl,
        read_return-encode ret h,
      )
      refl
