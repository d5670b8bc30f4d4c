-- ===== src/Chrpc/RpcServer/Delivery.antt =====
-- A response is delivered in one message, or the channel refuses it.
use chlibs.Common.{
  ℕ, ◌+◌, ◌^◌, ◌≤◌, ◌<◌, ◌≡◌, refl, sym, ◌∙◌, ap, subst, Option, none, some, List, [], arith,
  length, append-nil, ltb, ltb→lt, not-ltb, inl, inr, Bool-cases,
}
use chlibs.Chrpc.Channel
use chlibs.Chrpc.Channel.{ChannelImpl, chn_success, chn_invalid_msg_size, chn_no_incoming_msg}
use chlibs.Chrpc.SerialType.{
  Status, success, buffer_too_small, disconnect, client_channel_error, ok, ToBuffer,
}
use chlibs.Chrpc.SerialValue.{Value}
use chlibs.Chrpc.SerialValue.Reading.{chrpc_value_from_buffer}
use chlibs.Chrpc.SerialValue.RoundTrip.{
  encode_pair, encode_return, ProperReturn, chrpc_value_from_buffer-encode,
}
use chlibs.Chrpc.RpcServer.{ServerCommand, sc_disconnect, sc_keep_alive, response_type}
use chlibs.Chrpc.RpcServer.Responding.{
  chrpc_send_error_response, response_to_buffer, response_sent, send_serialised, send_error,
  send_bytes, channel_error,
}
use chlibs.Chrpc.RpcServer.Responses.{
  response_value, response_value-IsProper, error_to_buffer-encode, response_to_buffer-encode,
  response_to_buffer-refused,
}

-- The message reads back as the response of this status and return value.
abbrev pub IsReply : Status → Option Value → List ℕ → Type 0
IsReply st ret m = chrpc_value_from_buffer m ≡ ok (response_value st ret) (length m)

module _ {C : Type 0} (impl : ChannelImpl C) where
  -- How the sending of an error from a channel `c` ends.
  pub data ErrorTold (c : C) (err : Status) : Status → C → Type 0 where
    told :
        {d : C} (m : List ℕ)
        → IsReply err none m
        → impl.send c m (length m) ≡ (chn_success, d)
        → ErrorTold c err success d
    not_told :
        {d : C} {why : Channel.Status} (m : List ℕ)
        → IsReply err none m
        → impl.send c m (length m) ≡ (why, d)
        → ¬ (why ≡ chn_success)
        → ErrorTold c err client_channel_error d

  -- How the sending of a return value ends, by what the endpoint commanded: `mms` is the largest
  -- size of the server.
  pub data ReturnTold (mms : ℕ) (c : C) (ret : Option Value)
      : ServerCommand → Status → C → Type 0 where
    kept :
        {d : C} (m : List ℕ)
        → IsReply success ret m
        → impl.send c m (length m) ≡ (chn_success, d)
        → ReturnTold mms c ret sc_keep_alive success d
    last :
        {d : C} (m : List ℕ)
        → IsReply success ret m
        → impl.send c m (length m) ≡ (chn_success, d)
        → ReturnTold mms c ret sc_disconnect disconnect d
    too_large :
        {d : C} {cmd : ServerCommand} {st : Status}
        → mms < 10 + length (encode_return ret)
        → ErrorTold c buffer_too_small st d
        → ReturnTold mms c ret cmd st d
    too_large_there :
        {c' d : C} {cmd : ServerCommand} {st : Status} (m : List ℕ)
        → IsReply success ret m
        → impl.send c m (length m) ≡ (chn_invalid_msg_size, c')
        → ErrorTold c' buffer_too_small st d
        → ReturnTold mms c ret cmd st d
    not_sent :
        {d : C} {cmd : ServerCommand} {why : Channel.Status} (m : List ℕ)
        → IsReply success ret m
        → impl.send c m (length m) ≡ (why, d)
        → ¬ (why ≡ chn_success)
        → ¬ (why ≡ chn_invalid_msg_size)
        → ReturnTold mms c ret cmd client_channel_error d

response_IsReply :
    (st : Status) (ret : Option Value)
    → length (encode_return ret) < 2 ^ 32
    → IsReply st ret (encode_pair (response_value st ret))
response_IsReply st ret small =
    let v = response_value st ret in
    let p = response_value-IsProper st ret small in
    ap chrpc_value_from_buffer (sym (append-nil (encode_pair v)))
    ∙ chrpc_value_from_buffer-encode v [] p.0 p.1

module _ {C : Type 0} (impl : ChannelImpl C) where
  send_bytes-eq : (c : C) (m : List ℕ) (n : ℕ) → send_bytes impl c m (some n) ≡ impl.send c m n
  unfolding send_bytes
  send_bytes-eq c m n = refl

  error_sent :
      (c : C) (err : Status) (m : List ℕ) (r : Channel.Status × C)
      → IsReply err none m
      → impl.send c m (length m) ≡ r
      → (let o = channel_error r in ErrorTold impl c err o.0 o.1)
  error_sent c err m (chn_success, d) reply e = told m reply e
  error_sent c err m (_, d) reply e = not_told m reply e (λ f. cc)

  pub chrpc_send_error_response-ErrorTold :
      (c : C) (mms : ℕ) (err : Status)
      → 10 ≤ mms
      → (let r = chrpc_send_error_response impl c mms err in ErrorTold impl c err r.0 r.1)
  unfolding chrpc_send_error_response
  chrpc_send_error_response-ErrorTold c mms err room =
      let m = encode_pair (response_value err none) in
      subst (λ b. let r = send_error impl c b in ErrorTold impl c err r.0 r.1)
        (sym (error_to_buffer-encode err mms room))
        (error_sent c err m (send_bytes impl c m (some (length m)))
          (response_IsReply err none (omega arith)) (sym (send_bytes-eq c m (length m))))

  response_sent-ReturnTold :
      (c : C) (mms : ℕ) (ret : Option Value) (cmd : ServerCommand) (m : List ℕ)
      (r : Channel.Status × C)
      → 10 ≤ mms
      → IsReply success ret m
      → impl.send c m (length m) ≡ r
      → (let o = response_sent impl mms cmd r in ReturnTold impl mms c ret cmd o.0 o.1)
  unfolding response_sent
  response_sent-ReturnTold c mms ret sc_disconnect m (chn_success, d) room reply e = last m reply e
  response_sent-ReturnTold c mms ret sc_keep_alive m (chn_success, d) room reply e = kept m reply e
  response_sent-ReturnTold c mms ret cmd m (chn_invalid_msg_size, d) room reply e =
      too_large_there m reply e (chrpc_send_error_response-ErrorTold d mms buffer_too_small room)
  response_sent-ReturnTold c mms ret cmd m (_, d) room reply e =
      not_sent m reply e (λ f. cc) (λ f. cc)

  refused-ReturnTold :
      (c : C) (mms : ℕ) (ret : Option Value) (cmd : ServerCommand) (b : ToBuffer)
      → 10 ≤ mms
      → mms < 10 + length (encode_return ret)
      → b.0 ≡ buffer_too_small
      → (let o = send_serialised impl c mms cmd b in ReturnTold impl mms c ret cmd o.0 o.1)
  unfolding send_serialised
  refused-ReturnTold c mms ret cmd (buffer_too_small, bytes, w) room short e =
      too_large short (chrpc_send_error_response-ErrorTold c mms buffer_too_small room)
  refused-ReturnTold c mms ret cmd (_, bytes, w) room short e = cc

  serialised-ReturnTold :
      (c : C) (mms : ℕ) (ret : Option Value) (cmd : ServerCommand) (m : List ℕ)
      → 10 ≤ mms
      → IsReply success ret m
      → (let o = send_serialised impl c mms cmd (success, m, some (length m)) in
          ReturnTold impl mms c ret cmd o.0 o.1)
  unfolding send_serialised
  serialised-ReturnTold c mms ret cmd m room reply =
      response_sent-ReturnTold c mms ret cmd m (send_bytes impl c m (some (length m))) room reply
        (sym (send_bytes-eq c m (length m)))

  pub send_serialised-ReturnTold :
      (c : C) (mms : ℕ) (cmd : ServerCommand) (ret : Option Value)
      → 10 ≤ mms
      → mms < 2 ^ 32
      → ProperReturn ret
      → (let o = send_serialised impl c mms cmd (response_to_buffer response_type ret mms) in
          ReturnTold impl mms c ret cmd o.0 o.1)
  send_serialised-ReturnTold c mms cmd ret room small h =
      elim (Bool-cases (ltb mms (10 + length (encode_return ret)))) [
        | inl e ↦
            let short = ltb→lt _ _ e in
            refused-ReturnTold c mms ret cmd (response_to_buffer response_type ret mms) room short
              (response_to_buffer-refused ret mms h room short)
        | inr e ↦
            let fits = not-ltb _ _ e in
            let m = encode_pair (response_value success ret) in
            subst
              (λ b.
                let o = send_serialised impl c mms cmd b in ReturnTold impl mms c ret cmd o.0 o.1)
              (sym (response_to_buffer-encode ret mms h fits))
              (serialised-ReturnTold c mms ret cmd m room
                (response_IsReply success ret (omega arith)))
      ]
