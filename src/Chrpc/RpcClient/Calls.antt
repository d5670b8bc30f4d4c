-- ===== src/Chrpc/RpcClient/Calls.antt =====
-- `chrpc_client_send_request` and `_chrpc_client_send_request_va` of chrpc/src/rpc_client.c, with a
-- result pointer that is not NULL; with NULL the value is dropped. `behind` is what stands in the
-- buffer behind the message that was received, which the code parses as well. The loop that waits
-- runs on fuel; Chrpc.RpcClient.Waiting says how much is enough.
pub mod Waiting
pub mod Replies
use chlibs.Common.{
  ℕ, zero, suc, ◌+◌, ◌%◌, ◌^◌, true, Option, none, some, List, ◌++◌, length, ltb, if◌then◌else◌,
}
use chlibs.Chrpc.Channel
use chlibs.Chrpc.Channel.{ChannelImpl, chn_success, chn_no_incoming_msg, chn_refresh, chn_receive}
use chlibs.Chrpc.SerialType.{
  success, client_channel_error, disconnect, too_many_arguments, ToBuffer,
}
use chlibs.Chrpc.SerialValue.{Value}
use chlibs.Chrpc.SerialValue.Reading.{chrpc_value_from_buffer}
use chlibs.Chrpc.RpcServer.{endpoint_max_args, status_code}
use chlibs.Chrpc.RpcServer.Responding.{send_bytes}
use chlibs.Chrpc.RpcServer.Handling.{or_same, received}
use chlibs.Chrpc.RpcClient.{ClientAttrs, Client, Answer, request_to_buffer, read_response}

-- the ends of the loop: a message, the last status of the channel, or no more fuel
pub data Waited (C : Type 0) : Type 0 where
  message : List ℕ → C → Waited C
  gave_up : Channel.Status → C → Waited C
  still_waiting : Waited C

abbrev pub with_chn : {C : Type 0} → Client C → Option C → Client C
with_chn client c = record {
  attrs = client.attrs;
  chn = c;
  buf_len = client.buf_len;
  req_type = client.req_type;
  resp_type = client.resp_type;
}

module _ {C : Type 0} (impl : ChannelImpl C) (sleep : C → C) where
  -- after the receive; `rest` is the loop from the next pass on
  unfoldable pub waited_receive :
      (C → Waited C) → C → Channel.Status × Option (List ℕ × ℕ) × Option C → Waited C
  waited_receive rest chn (chn_success, out, chn') = message (received out) (or_same chn chn')
  waited_receive rest chn (chn_no_incoming_msg, out, chn') = rest (sleep (or_same chn chn'))
  waited_receive rest chn (st, out, chn') = gave_up st (or_same chn chn')

  -- after the refresh
  unfoldable pub waited_refresh : (C → Waited C) → ℕ → C → Channel.Status × Option C → Waited C
  unfolding waited_receive chn_receive
  waited_refresh rest n chn (chn_success, chn') =
      waited_receive rest (or_same chn chn')
        (chn_receive impl (some (or_same chn chn')) true n true)
  waited_refresh rest n chn (st, chn') = gave_up st (or_same chn chn')

  -- The loop, with the time waited and the last status.
  unfoldable pub wait_for_response :
      ℕ → ClientAttrs → (waited : ℕ) → Channel.Status → ℕ → C → Waited C
  unfolding waited_refresh chn_refresh
  wait_for_response zero attrs waited st n chn = still_waiting
  wait_for_response (suc fuel) attrs waited st n chn =
      let rest : C → Waited C = λ c.
        wait_for_response fuel attrs ((waited + attrs.cadence) % 2 ^ 32) chn_no_incoming_msg n c in
      if ltb waited attrs.timeout
      then waited_refresh rest n chn (chn_refresh impl (some chn))
      else gave_up st chn

  -- after the loop; a channel without a message is deleted
  unfoldable pub after_wait : Client C → List ℕ → Waited C → Option (Client C × Answer)
  unfolding read_response chrpc_value_from_buffer
  after_wait client behind (message bytes chn) = some (
    with_chn client (some chn),
    read_response client.resp_type (chrpc_value_from_buffer (bytes ++ behind)),
  )
  after_wait client behind (gave_up chn_no_incoming_msg chn) =
      some (with_chn client none, (status_code disconnect, none))
  after_wait client behind (gave_up st chn) =
      some (with_chn client none, (status_code client_channel_error, none))
  after_wait client behind still_waiting = none

  -- after the send
  unfoldable pub request_sent :
      ℕ → Client C → List ℕ → Channel.Status × C → Option (Client C × Answer)
  unfolding after_wait wait_for_response
  request_sent fuel client behind (chn_success, chn) =
      after_wait client behind
        (wait_for_response fuel client.attrs 0 chn_success client.buf_len chn)
  request_sent fuel client behind (st, chn) =
      some (with_chn client none, (status_code client_channel_error, none))

  -- what is done with the serialised request
  unfoldable pub send_request : ℕ → Client C → C → List ℕ → ToBuffer → Option (Client C × Answer)
  unfolding request_sent send_bytes
  send_request fuel client chn behind (success, bytes, w) =
      request_sent fuel client behind (send_bytes impl chn bytes w)
  send_request fuel client chn behind (st, bytes, w) = some (client, (status_code st, none))

  -- on the client's channel, if there is one
  unfoldable pub request_on :
      ℕ → Client C → List ℕ → List Value → List ℕ → Option C → Option (Client C × Answer)
  unfolding send_request request_to_buffer
  request_on fuel client name args behind none =
      some (client, (status_code client_channel_error, none))
  request_on fuel client name args behind (some chn) =
      send_request fuel client chn behind
        (request_to_buffer client.req_type name args client.buf_len)

  -- `none` when the fuel runs out. The number of arguments is a uint8_t, so there are at most 255.
  unfoldable pub chrpc_client_send_request :
      ℕ → Client C → List ℕ → List Value → (behind : List ℕ) → Option (Client C × Answer)
  unfolding request_on
  chrpc_client_send_request fuel client name args behind =
      request_on fuel client name args behind client.chn

  unfoldable pub chrpc_client_send_request_va :
      ℕ → Client C → List ℕ → List Value → (behind : List ℕ) → Option (Client C × Answer)
  unfolding chrpc_client_send_request
  chrpc_client_send_request_va fuel client name args behind =
      if ltb endpoint_max_args (length args)
      then some (client, (status_code too_many_arguments, none))
      else chrpc_client_send_request fuel client name args behind
