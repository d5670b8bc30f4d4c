-- ===== src/Chrpc/RpcClient/Calls/Replies.antt =====
-- A call whose response is there gives the value that was returned.
use chlibs.Common.{ℕ, suc, ◌^◌, ◌≤◌, ◌<◌, ◌≡◌, refl, Option, some, List, length, take_all, lt→ltb}
use chlibs.Chrpc.Channel.{ChannelImpl, chn_success, chn_send, chn_refresh, chn_receive}
use chlibs.Chrpc.SerialType.{success}
use chlibs.Chrpc.SerialValue.{Value}
use chlibs.Chrpc.SerialValue.Made.{AllProper}
use chlibs.Chrpc.SerialValue.RoundTrip.{encode_pair, encode_return, ProperReturn}
use chlibs.Chrpc.RpcServer.{request_type, response_type, status_code}
use chlibs.Chrpc.RpcServer.Responding.{send_bytes}
use chlibs.Chrpc.RpcServer.Responses.{response_value}
use chlibs.Chrpc.RpcClient.{ClientAttrs, Client}
use chlibs.Chrpc.RpcClient.Requests.{request_value, request_to_buffer-encode_pair}
use chlibs.Chrpc.RpcClient.Responses.{read_response-encode}
use chlibs.Chrpc.RpcClient.Calls.{
  message, wait_for_response, after_wait, request_sent, send_request, request_on, waited_refresh,
  waited_receive, chrpc_client_send_request,
}

module _ {C : Type 0} (impl : ChannelImpl C) (sleep : C → C) where
  waits_once :
      (fuel : ℕ) (attrs : ClientAttrs) (buf_len : ℕ) (chn chn₁ chn₂ : C) (msg : List ℕ)
      → 0 < attrs.timeout
      → impl.refresh chn ≡ (chn_success, chn₁)
      → impl.receive chn₁ buf_len ≡ (chn_success, some (msg, length msg), chn₂)
      → wait_for_response impl sleep (suc fuel) attrs 0 chn_success buf_len chn ≡ message msg chn₂
  unfolding wait_for_response waited_refresh waited_receive chn_refresh chn_receive
  waits_once fuel attrs buf_len chn chn₁ chn₂ msg pos fresh got =
      rw (lt→ltb 0 attrs.timeout pos, fresh, got, take_all msg) refl

  -- A request of proper arguments that fits the buffer, over a channel that takes its bytes and
  -- has the encoded response of a return value at the first poll, gives that value with the status
  -- of success and keeps the channel, whatever stands in the buffer behind the response.
  pub chrpc_client_send_request-answer :
      (fuel : ℕ) (attrs : ClientAttrs) (buf_len : ℕ) (name : List ℕ) (args : List Value)
      (ret : Option Value) (behind : List ℕ) (chn chn₁ chn₂ chn₃ : C)
      → AllProper args
      → length (encode_pair (request_value name args)) ≤ buf_len
      → ProperReturn ret
      → length (encode_return ret) < 2 ^ 32
      → 0 < attrs.timeout
      → let req = encode_pair (request_value name args) in
        let resp = encode_pair (response_value success ret) in
        impl.send chn req (length req) ≡ (chn_success, chn₁)
        → impl.refresh chn₁ ≡ (chn_success, chn₂)
        → impl.receive chn₂ buf_len ≡ (chn_success, some (resp, length resp), chn₃)
        → let client : Option C → Client C = λ c. record {
          attrs = attrs;
          chn = c;
          buf_len = buf_len;
          req_type = request_type;
          resp_type = response_type;
        } in
          chrpc_client_send_request impl sleep (suc fuel) (client (some chn)) name args behind
          ≡ some (client (some chn₃), (status_code success, some ret))
  unfolding chrpc_client_send_request request_on send_request request_sent after_wait send_bytes
      chn_send
  chrpc_client_send_request-answer fuel attrs buf_len name args ret behind chn chn₁ chn₂ chn₃ proper
        room returned small pos sent fresh got =
      rw
        (
          request_to_buffer-encode_pair name args buf_len proper room,
          sent,
          waits_once fuel attrs buf_len chn₁ chn₂ chn₃ (encode_pair (response_value success ret))
              pos fresh got,
          read_response-encode ret behind returned small,
        )
        refl
