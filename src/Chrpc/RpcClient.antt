-- ===== src/Chrpc/RpcClient.antt =====
-- The RPC client: chrpc/include/chrpc/rpc_client.h and chrpc/src/rpc_client.c. `C` is the state of
-- the channel, whose implementation is a parameter; `none` is a channel that was deleted. What goes
-- on while the client sleeps is a function on that state, and times are counted in 32 bits.
pub mod Requests
pub mod Responses
pub mod Calls
mod Tests
use chlibs.Common.{
  ℕ, zero, suc, ◌+◌, ◌-◌, ◌%◌, ◌^◌, Bool, true, false, not, Option, none, some, List, [], ◌∷◌, ◌++◌,
  length, take, ltb, ◌==◌, if◌then◌else◌,
}
use chlibs.Chrpc.Channel
use chlibs.Chrpc.Channel.{
  ChannelImpl, chn_success, chn_no_incoming_msg, chn_max_msg_size, chn_send, chn_refresh,
  chn_receive,
}
use chlibs.Chrpc.ChannelFd.{u32_bytes}
use chlibs.Chrpc.SerialType.{
  Status, success, buffer_too_small, client_channel_error, client_creation_error, disconnect,
  bad_response, too_many_arguments, ChrpcType, ToBuffer, FromBuffer, ok, failed, out_of_fuel,
  stored_or_zero, then_write, chrpc_type_to_buffer, chrpc_type_equals,
}
use chlibs.Chrpc.SerialValue.{
  InnerValue, num, num_arr, struct_entries, entry, Value, c_str, strlen,
  chrpc_value_to_buffer_with_length,
}
use chlibs.Chrpc.SerialValue.Reading.{chrpc_value_from_buffer}
use chlibs.Chrpc.RpcServer.{request_type, response_type, endpoint_max_args, status_code}
use chlibs.Chrpc.RpcServer.Responding.{after_send}
use chlibs.Chrpc.RpcServer.Handling.{or_same, received}

pub record ClientAttrs : Type 0 where
  pub cadence : ℕ
  pub timeout : ℕ

-- The bytes of the buffer are not part of the state: a call takes those that are left in it.
pub record Client (C : Type 0) : Type 0 where
  pub attrs : ClientAttrs
  pub chn : Option C
  pub buf_len : ℕ
  pub req_type : ChrpcType
  pub resp_type : ChrpcType

abbrev pub sent_ok : Channel.Status → Bool
sent_ok chn_success = true
sent_ok _ = false

-- The code tests the cadence twice, and not the timeout.
unfoldable pub new_chrpc_client :
    {C : Type 0} (impl : ChannelImpl C) → Option C → ClientAttrs → Status × Option (Client C)
unfolding chn_max_msg_size
new_chrpc_client impl none attrs = (client_creation_error, none)
new_chrpc_client impl (some chn) attrs =
    let (st, mms) = chn_max_msg_size impl (some chn) true in
    if attrs.cadence == 0
    then (client_creation_error, none)
    else if not (sent_ok st)
    then (client_channel_error, none)
    else (
      success,
      some record {
        attrs = attrs;
        chn = some chn;
        buf_len = stored_or_zero mms;
        req_type = request_type;
        resp_type = response_type;
      },
    )

-- the name, at `pos`
unfoldable pub name_to_buffer : List ℕ → ℕ → ℕ → ToBuffer
unfolding strlen u32_bytes
name_to_buffer name buf_len pos =
    let name_len = strlen name + 1 in
    if ltb (buf_len - pos) (4 + name_len)
    then (buffer_too_small, [], none)
    else (success, u32_bytes name_len ++ (c_str name ++ (0 ∷ [])), some (pos + (4 + name_len)))

-- the number of arguments, at `pos`
unfoldable pub num_args_to_buffer : ℕ → ℕ → ℕ → ToBuffer
unfolding u32_bytes
num_args_to_buffer num_args buf_len pos =
    if ltb (buf_len - pos) 4
    then (buffer_too_small, [], none)
    else (success, u32_bytes num_args, some (pos + 4))

-- the loop over the arguments, from `pos` on
unfoldable pub args_to_buffer : List Value → ℕ → ℕ → ToBuffer
unfolding chrpc_value_to_buffer_with_length
args_to_buffer [] buf_len pos = (success, [], some pos)
args_to_buffer (a ∷ args) buf_len pos =
    then_write (chrpc_value_to_buffer_with_length (some a) [] (buf_len - pos))
      (λ w. args_to_buffer args buf_len (pos + w))

-- The type, the name, the number of arguments and the arguments are put one behind the other; what
-- a failure has put is not sent.
unfoldable pub request_to_buffer : ChrpcType → List ℕ → List Value → ℕ → ToBuffer
unfolding name_to_buffer num_args_to_buffer args_to_buffer
request_to_buffer req_type name args buf_len =
    then_write (chrpc_type_to_buffer req_type buf_len) λ w.
      then_write (name_to_buffer name buf_len w) λ v.
        then_write (num_args_to_buffer (length args) buf_len v) λ u. args_to_buffer args buf_len u

-- The members that the type of a response means.
abbrev pub response_status : InnerValue → ℕ
response_status (struct_entries (entry (num (st ∷ [])) es)) = st
response_status _ = 0

abbrev pub response_array : InnerValue → ℕ × List ℕ
response_array (struct_entries (entry v (entry (num_arr n b) es))) = (n, b)
response_array _ = (0, [])

-- The number of a status, and what is stored in `*ret`: nothing, or a pointer that may be NULL.
abbrev pub Answer : Type 0
Answer = ℕ × Option (Option Value)

-- what is done with the serialised return value; the reading of it does not run out of fuel
abbrev pub return_value : FromBuffer Value → Answer
return_value (ok v k) = (status_code success, some (some v))
return_value (failed st) = (status_code st, none)
return_value out_of_fuel = (status_code bad_response, none)

unfoldable pub read_return : ℕ × List ℕ → Answer
unfolding chrpc_value_from_buffer
read_return (n, b) =
    if ltb 0 n
    then return_value (chrpc_value_from_buffer (take n b))
    else (status_code success, some none)

-- what is done with the response, read from the whole buffer
unfoldable pub read_response : ChrpcType → FromBuffer Value → Answer
unfolding read_return
read_response resp_type (ok resp k) =
    if not (chrpc_type_equals resp_type resp.type)
    then (status_code bad_response, none)
    else if not (response_status resp.value == 0)
    then (response_status resp.value, none)
    else read_return (response_array resp.value)
read_response resp_type _ = (status_code bad_response, none)
