-- ===== src/Chrpc/RpcClient/Tests.antt =====
-- A client over a pipe of two lists of messages.
use chlibs.Common.{
  ℕ, ◌+◌, ◌^◌, ◌<◌, ◌≤◌, ◌≡◌, refl, Option, none, some, List, [], ◌∷◌, ◌++◌, arith, length,
}
use chlibs.Chrpc.Channel
use chlibs.Chrpc.Channel.{ChannelImpl, chn_success, chn_no_incoming_msg}
use chlibs.Chrpc.ChannelFd.{u32_bytes}
use chlibs.Chrpc.SerialType.{success, ok, prim, byte}
use chlibs.Chrpc.SerialType.Encoding.{encode_type}
use chlibs.Chrpc.SerialValue.{Value, num, c_str, strlen}
use chlibs.Chrpc.SerialValue.Encoding.{encode_value, encode_str}
use chlibs.Chrpc.SerialValue.Making.{str_copy}
use chlibs.Chrpc.SerialValue.Reading.{chrpc_value_from_buffer}
use chlibs.Chrpc.SerialValue.RoundTrip.{IsProper, encode_pair}
use chlibs.Chrpc.RpcServer.{request_type, response_type, status_code}
use chlibs.Chrpc.RpcServer.Handling.{endpoint_name, arg_arrays, parse_args}
use chlibs.Chrpc.RpcServer.Responses.{response_value}
use chlibs.Chrpc.RpcClient.{ClientAttrs, Client, request_to_buffer, new_chrpc_client}
use chlibs.Chrpc.RpcClient.Requests.{request_value, arg_bytes, parse_args-request_to_buffer}
use chlibs.Chrpc.RpcClient.Calls.{chrpc_client_send_request}
use chlibs.Chrpc.RpcClient.Calls.Waiting.{chrpc_client_send_request-returns}
use chlibs.Chrpc.RpcClient.Calls.Replies.{chrpc_client_send_request-answer}

-- the messages to receive and those sent
abbrev Pipe : Type 0
Pipe = List (List ℕ) × List (List ℕ)

abbrev pipe_receive : Pipe → ℕ → Channel.Status × Option (List ℕ × ℕ) × Pipe
pipe_receive ([], outs) n = (chn_no_incoming_msg, none, ([], outs))
pipe_receive (m ∷ ins, outs) n = (chn_success, some (m, length m), (ins, outs))

abbrev pipe : ChannelImpl Pipe
pipe = record {
  max_msg_size = λ c. (chn_success, 128);
  send = λ c msg n. (chn_success, (c.0, c.1 ++ msg ∷ []));
  refresh = λ c. (chn_success, c);
  incoming_len = λ c. (chn_no_incoming_msg, none);
  receive = pipe_receive;
}

abbrev attrs : ClientAttrs
attrs = record { cadence = 2; timeout = 5 }

abbrev client : Option Pipe → Client Pipe
client c = record {
  attrs = attrs;
  chn = c;
  buf_len = 128;
  req_type = request_type;
  resp_type = response_type;
}

makes_client :
    new_chrpc_client pipe (some ([], [])) attrs ≡ (success, some (client (some ([], []))))
unfolding new_chrpc_client
makes_client = refl

-- The timeout is not tested.
accepts_no_timeout :
    (new_chrpc_client pipe (some ([], [])) (record { cadence = 2; timeout = 0 })).0 ≡ success
unfolding new_chrpc_client
accepts_no_timeout = refl

abbrev hi : List ℕ
hi = 104 ∷ 105 ∷ 0 ∷ []

abbrev seven : Value
seven = record { type = prim byte; value = num (7 ∷ []) }

abbrev seven-IsProper : IsProper seven
seven-IsProper = (tt, (refl, refl), tt)

length-seven : length (encode_pair seven) ≡ 2
unfolding encode_type encode_value
length-seven = refl

request_fits : length (encode_pair (request_value hi (seven ∷ []))) ≤ 128
unfolding encode_type encode_value encode_str u32_bytes c_str
request_fits = omega arith

short_name : strlen hi + 1 < 2 ^ 32
unfolding strlen c_str
short_name = omega arith

parse_args-request_to_buffer_example :
    let (status, bytes, written) = request_to_buffer request_type hi (seven ∷ []) 128 in
    let req = request_value hi (seven ∷ []) in
    (status ≡ success)
    × (written ≡ some (length bytes))
    × (chrpc_value_from_buffer (bytes ++ 9 ∷ []) ≡ ok req (length bytes))
    × (endpoint_name req.value ≡ str_copy hi)
    × (parse_args (prim byte ∷ []) (arg_arrays req.value)
        ≡ ok (seven ∷ []) (arg_bytes (seven ∷ [])))
parse_args-request_to_buffer_example =
    parse_args-request_to_buffer hi (seven ∷ []) 128 (9 ∷ []) (seven-IsProper, tt)
      (omega (arith, length-seven), tt) (omega arith) short_name request_fits

chrpc_client_send_request-returns_example :
    ¬ (chrpc_client_send_request pipe (λ c. c) 6 (client (some ([], []))) hi (seven ∷ []) [] ≡ none)
chrpc_client_send_request-returns_example =
    chrpc_client_send_request-returns pipe (λ c. c) 6 (client (some ([], []))) hi (seven ∷ []) []
      (omega arith) (omega arith) (omega arith)

abbrev sent : List ℕ
sent = encode_pair (request_value hi (seven ∷ []))

abbrev reply : List ℕ
reply = encode_pair (response_value success (some seven))

chrpc_client_send_request-answer_example :
    chrpc_client_send_request pipe (λ c. c) 1 (client (some (reply ∷ [], []))) hi (seven ∷ []) []
    ≡ some (client (some ([], sent ∷ [])), (status_code success, some (some seven)))
chrpc_client_send_request-answer_example =
    chrpc_client_send_request-answer pipe (λ c. c) 0 attrs 128 hi (seven ∷ []) (some seven) []
      (reply ∷ [], []) (reply ∷ [], sent ∷ []) (reply ∷ [], sent ∷ []) ([], sent ∷ [])
      (seven-IsProper, tt) request_fits seven-IsProper (omega (arith, length-seven)) (omega arith)
      refl refl refl
