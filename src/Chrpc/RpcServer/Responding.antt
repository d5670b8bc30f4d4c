-- ===== src/Chrpc/RpcServer/Responding.antt =====
-- Responses: `chrpc_send_error_response` and `chrpc_send_response` of chrpc/src/rpc_server.c. What is
-- sent is given by the bytes put into the buffer and the number that `chn_send` is given; the bytes
-- of a write that failed are not sent.
use chlibs.Common.{
  ℕ, ◌+◌, ◌-◌, Bool, true, false, not, Option, none, some, List, [], ◌∷◌, ltb, if◌then◌else◌,
}
use chlibs.Chrpc.Channel
use chlibs.Chrpc.Channel.{ChannelImpl, chn_success, chn_invalid_msg_size, chn_send}
use chlibs.Chrpc.SerialType.{
  Status, success, buffer_too_small, client_channel_error, server_internal_error, disconnect,
  ChrpcType, ToBuffer, stored_or_zero, then_write, chrpc_type_to_buffer, chrpc_type_equals,
}
use chlibs.Chrpc.SerialValue.{Value, chrpc_value_to_buffer, chrpc_value_to_buffer_with_length}
use chlibs.Chrpc.SerialValue.Numbers.{new_chrpc_b8_value, new_chrpc_b8_array_value}
use chlibs.Chrpc.SerialValue.Making.{new_chrpc_struct_value_va}
use chlibs.Chrpc.RpcServer.{
  Endpoint, ServerCommand, sc_disconnect, sc_keep_alive, Server, status_code,
}

-- The value is made of two fields, so it is not NULL.
unfoldable pub error_value : Status → Option Value
unfolding new_chrpc_b8_value new_chrpc_b8_array_value new_chrpc_struct_value_va
error_value err =
    new_chrpc_struct_value_va
      (new_chrpc_b8_value (status_code err) ∷ new_chrpc_b8_array_value [] 0 ∷ [])

unfoldable pub error_to_buffer : Status → ℕ → ToBuffer
unfolding error_value chrpc_value_to_buffer
error_to_buffer err mms = elim (error_value err) [
  | none ↦ (server_internal_error, [], none)
  | some v ↦ chrpc_value_to_buffer v mms
]

abbrev pub after_send : {C : Type 0} → C → Channel.Status × Option C → Channel.Status × C
after_send c (st, none) = (st, c)
after_send c (st, some d) = (st, d)

abbrev pub channel_error : {C : Type 0} → Channel.Status × C → Status × C
channel_error (chn_success, c) = (success, c)
channel_error (st, c) = (client_channel_error, c)

module _ {C : Type 0} (impl : ChannelImpl C) where
  -- a call of `chn_send` with the front of the buffer
  unfoldable pub send_bytes : C → List ℕ → Option ℕ → Channel.Status × C
  unfolding chn_send
  send_bytes chn bytes w = after_send chn (chn_send impl (some chn) (some bytes) (stored_or_zero w))

  -- what `chrpc_send_error_response` does with the serialised value
  abbrev pub send_error : C → ToBuffer → Status × C
  send_error chn (success, bytes, w) = channel_error (send_bytes chn bytes w)
  send_error chn (st, bytes, w) = (st, chn)

  unfoldable pub chrpc_send_error_response : C → (mms : ℕ) → Status → Status × C
  unfolding error_to_buffer send_bytes
  chrpc_send_error_response chn mms err = send_error chn (error_to_buffer err mms)

-- `none` is NULL.
unfoldable pub chrpc_type_equals_wrapper : Option ChrpcType → Option Value → Bool
unfolding chrpc_type_equals
chrpc_type_equals_wrapper none none = true
chrpc_type_equals_wrapper (some ct) (some cv) = chrpc_type_equals ct cv.type
chrpc_type_equals_wrapper _ _ = false

-- the status flag, at `pos`
unfoldable pub flag_to_buffer : ℕ → ℕ → ToBuffer
flag_to_buffer mms pos =
    if ltb (mms - pos) 1
    then (buffer_too_small, [], none)
    else (success, status_code success ∷ [], some (pos + 1))

-- the total of what was written
abbrev pub add_written : ℕ → ToBuffer → ToBuffer
add_written pos (st, bytes, w) = (st, bytes, some (pos + stored_or_zero w))

-- The type, the flag and the value in front of its length are put one behind the other.
unfoldable pub response_to_buffer : ChrpcType → Option Value → ℕ → ToBuffer
unfolding flag_to_buffer chrpc_value_to_buffer_with_length
response_to_buffer resp_type ret_val mms = then_write (chrpc_type_to_buffer resp_type mms) λ w.
    then_write (flag_to_buffer mms w)
      λ pos. add_written pos (chrpc_value_to_buffer_with_length ret_val [] (mms - pos))

abbrev pub sent_status : ServerCommand → Status
sent_status sc_disconnect = disconnect
sent_status sc_keep_alive = success

module _ {C : Type 0} (impl : ChannelImpl C) where
  -- after the response was sent: `cmd` is what the endpoint returned
  unfoldable pub response_sent : ℕ → ServerCommand → Channel.Status × C → Status × C
  unfolding chrpc_send_error_response
  response_sent mms cmd (chn_success, chn) = (sent_status cmd, chn)
  response_sent mms cmd (chn_invalid_msg_size, chn) =
      chrpc_send_error_response impl chn mms buffer_too_small
  response_sent mms cmd (st, chn) = (client_channel_error, chn)

  -- the serialised response is sent, or the status of its failure
  unfoldable pub send_serialised : C → ℕ → ServerCommand → ToBuffer → Status × C
  unfolding response_sent send_bytes
  send_serialised chn mms cmd (success, bytes, w) =
      response_sent mms cmd (send_bytes impl chn bytes w)
  send_serialised chn mms cmd (st, bytes, w) = chrpc_send_error_response impl chn mms st

module _ {S C : Type 0} (impl : ChannelImpl C) where
  -- The status, the channel and the server's state afterwards.
  unfoldable pub chrpc_send_response :
      Endpoint S → List Value → (id : ℕ) → C → Server S C → Status × C × S
  unfolding chrpc_type_equals_wrapper response_to_buffer send_serialised
  chrpc_send_response ep args id chn server =
      let (cmd, ret_val, s) = ep.func id server.server_state args in
      if not (chrpc_type_equals_wrapper ep.ret ret_val)
      then (server_internal_error, chn, s)
      else (let mms = server.attrs.max_msg_size in
          let (st, chn') =
            send_serialised impl chn mms cmd (response_to_buffer server.resp_type ret_val mms) in
          (st, chn', s))
