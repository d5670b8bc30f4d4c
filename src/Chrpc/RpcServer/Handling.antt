-- ===== src/Chrpc/RpcServer/Handling.antt =====
-- Requests: `chrpc_handle_request` and `chrpc_poll_channel` of chrpc/src/rpc_server.c.
use chlibs.Common.{
  ℕ, ◌+◌, true, not, Option, none, some, List, [], ◌∷◌, length, take, ◌==◌, if◌then◌else◌,
}
use chlibs.Chrpc.Channel
use chlibs.Chrpc.Channel.{ChannelImpl, chn_success, chn_no_incoming_msg, chn_refresh, chn_receive}
use chlibs.Chrpc.SerialType.{
  Status, unknown_endpoint, argument_mismatch, client_channel_empty, client_channel_error,
  bad_request, ChrpcType, chrpc_type_equals, FromBuffer, ok, failed, out_of_fuel, then_read,
}
use chlibs.Chrpc.SerialValue.{
  InnerValue, num_arr, text, array_entries, struct_entries, Entries, no_entries, entry, Value,
  count,
}
use chlibs.Chrpc.SerialValue.Reading.{chrpc_value_from_buffer}
use chlibs.Chrpc.RpcServer.{Endpoint, Server, QueueEle}
use chlibs.Chrpc.RpcServer.Endpoints.{chrpc_endpoint_set_lookup}
use chlibs.Chrpc.RpcServer.Responding.{chrpc_send_error_response, chrpc_send_response}

-- The members that the type of a request means.
-- The block of the name. The code reads it as a C string: behind the block if it has no NUL, which
-- is not modelled, so the results on requests take names that end.
abbrev pub endpoint_name : InnerValue → List ℕ
endpoint_name (struct_entries (entry (text name) es)) = name
endpoint_name _ = []

abbrev pub arg_arrays : InnerValue → Entries
arg_arrays (struct_entries (entry v (entry (array_entries es) ds))) = es
arg_arrays _ = no_entries

-- `array_len` bytes at `b8_arr`
abbrev pub field_buf : InnerValue → List ℕ
field_buf (num_arr n b) = take n b
field_buf _ = []

-- The loop over the arguments, of which as many are given as the endpoint has; the count of bytes
-- is not used.
unfoldable pub parse_args : List ChrpcType → Entries → FromBuffer (List Value)
unfolding chrpc_value_from_buffer chrpc_type_equals
parse_args (t ∷ ts) (entry v es) =
    let rest = parse_args ts es in
    then_read (chrpc_value_from_buffer (field_buf v)) λ f k.
      if chrpc_type_equals t f.type
      then (then_read rest λ fs n. ok (f ∷ fs) (k + n))
      else failed argument_mismatch
parse_args _ _ = ok [] 0

abbrev pub with_state : {S C : Type 0} → S → Status × C → Status × C × S
with_state s (st, c) = (st, c, s)

-- The bytes that a receive stored, of which there are some if it succeeded.
abbrev pub received : Option (List ℕ × ℕ) → List ℕ
received none = []
received (some (msg, n)) = take n msg

abbrev pub or_same : {C : Type 0} → C → Option C → C
or_same chn none = chn
or_same chn (some chn') = chn'

module _ {S C : Type 0} (impl : ChannelImpl C) where
  -- an error is sent, and the state is left
  abbrev pub reject : C → Server S C → Status → Status × C × S
  reject chn server err =
      with_state server.server_state
        (chrpc_send_error_response impl chn server.attrs.max_msg_size err)

  -- The reading of arguments does not run out of fuel.
  abbrev pub call_endpoint :
      Endpoint S → ℕ → C → Server S C → FromBuffer (List Value) → Status × C × S
  call_endpoint ep id chn server (ok args k) = chrpc_send_response impl ep args id chn server
  call_endpoint ep id chn server (failed st) = reject chn server st
  call_endpoint ep id chn server out_of_fuel = (client_channel_error, chn, server.server_state)

  -- what is done with the endpoint that was looked up
  unfoldable pub dispatch : Option (Endpoint S) → Value → ℕ → C → Server S C → Status × C × S
  unfolding parse_args chrpc_send_error_response chrpc_send_response
  dispatch none req id chn server = reject chn server unknown_endpoint
  dispatch (some ep) req id chn server =
      if not (length ep.args == count (arg_arrays req.value))
      then reject chn server argument_mismatch
      else call_endpoint ep id chn server (parse_args ep.args (arg_arrays req.value))

  unfoldable pub chrpc_handle_request : Value → ℕ → C → Server S C → Status × C × S
  unfolding dispatch chrpc_endpoint_set_lookup
  chrpc_handle_request req id chn server =
      if not (chrpc_type_equals server.req_type req.type)
      then reject chn server bad_request
      else dispatch (chrpc_endpoint_set_lookup server.ep_set (endpoint_name req.value)) req id chn
          server

  -- what is done with what was read; the reading does not run out of fuel
  unfoldable pub handle_message : FromBuffer Value → ℕ → C → Server S C → Status × C × S
  unfolding chrpc_handle_request
  handle_message (ok req k) id chn server = chrpc_handle_request req id chn server
  handle_message (failed st) id chn server = reject chn server st
  handle_message out_of_fuel id chn server = (client_channel_error, chn, server.server_state)

  -- after the receive
  unfoldable pub after_receive :
      ℕ → C → Server S C → Channel.Status × Option (List ℕ × ℕ) × Option C → Status × C × S
  unfolding handle_message chrpc_value_from_buffer
  after_receive id chn server (chn_success, out, chn') =
      handle_message (chrpc_value_from_buffer (received out)) id (or_same chn chn') server
  after_receive id chn server (chn_no_incoming_msg, out, chn') =
      (client_channel_empty, or_same chn chn', server.server_state)
  after_receive id chn server (st, out, chn') =
      (client_channel_error, or_same chn chn', server.server_state)

  -- after the refresh
  unfoldable pub after_refresh : ℕ → C → Server S C → Channel.Status × Option C → Status × C × S
  unfolding after_receive chn_receive
  after_refresh id chn server (chn_success, chn') =
      after_receive id (or_same chn chn') server
        (chn_receive impl (some (or_same chn chn')) true server.attrs.max_msg_size true)
  after_refresh id chn server (st, chn') =
      (client_channel_error, or_same chn chn', server.server_state)

  unfoldable pub chrpc_poll_channel : QueueEle C → Server S C → Status × C × S
  unfolding after_refresh chn_refresh
  chrpc_poll_channel ele server =
      after_refresh ele.id ele.chn server (chn_refresh impl (some ele.chn))
