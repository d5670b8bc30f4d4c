-- ===== src/Chrpc/RpcServer/Answers.antt =====
-- What a server does with a message that it receives: which error or return value it answers with,
-- and when it gives the channel up.
use chlibs.Common.{
  ℕ, ◌≡◌, ◌↔◌, refl, sym, subst, Bool, true, false, not, Option, none, some, List, [], ◌∷◌, arith,
  length, inl, inr, if◌then◌else◌, Bool-cases, ◌==◌, ==→eq, not-==→ne, ap, ◌∙◌,
}
use chlibs.Chrpc.Channel
use chlibs.Chrpc.Channel.{ChannelImpl, chn_success, chn_no_incoming_msg}
use chlibs.Chrpc.SerialType.{
  Status, bad_request, unknown_endpoint, argument_mismatch, ok, failed, out_of_fuel, FromBuffer,
  ChrpcType, chrpc_type_equals,
}
use chlibs.Chrpc.SerialType.Equality.{chrpc_type_equals_iff}
use chlibs.Chrpc.SerialValue.{Value, Entries, no_entries, entry, count}
use chlibs.Chrpc.SerialValue.Reading.{chrpc_value_from_buffer}
use chlibs.Chrpc.SerialValue.RoundTrip.{ProperReturn}
use chlibs.Chrpc.SerialValue.Total.{Ends, Ends-then_read, Ends-if, chrpc_value_from_buffer-Ends}
use chlibs.Chrpc.RpcServer.{Endpoint, Server, ServerCommand, QueueEle, response_type}
use chlibs.Chrpc.RpcServer.Endpoints.{chrpc_endpoint_set_lookup}
use chlibs.Chrpc.RpcServer.Responding.{
  chrpc_send_response, chrpc_type_equals_wrapper, send_serialised, response_to_buffer,
}
use chlibs.Chrpc.RpcServer.Handling.{
  parse_args, endpoint_name, arg_arrays, field_buf, reject, call_endpoint, dispatch, handle_message,
  received, after_receive, after_refresh, chrpc_poll_channel, chrpc_handle_request,
}
use chlibs.Chrpc.RpcServer.Delivery.{
  ErrorTold, ReturnTold, chrpc_send_error_response-ErrorTold, send_serialised-ReturnTold,
}
use chlibs.Chrpc.RpcServer.Outcomes.{
  Serves, NamesEnd, TypeFits, Asks, Handled, unreadable, other_type, unknown, other_count,
  other_args, wrong_return, called, Polled, not_refreshed, nothing_came, not_received, handled,
}

chrpc_type_equals_wrapper_iff :
    (t : Option ChrpcType) (v : Option Value)
    → (chrpc_type_equals_wrapper t v ≡ true) ↔ TypeFits t v
unfolding chrpc_type_equals_wrapper
chrpc_type_equals_wrapper_iff none none = (λ e. tt, λ h. refl)
chrpc_type_equals_wrapper_iff none (some v) = (λ e. cc, λ h. absurd h)
chrpc_type_equals_wrapper_iff (some t) none = (λ e. cc, λ h. absurd h)
chrpc_type_equals_wrapper_iff (some t) (some v) = chrpc_type_equals_iff t v.type

parse_args-Ends : (ts : List ChrpcType) (es : Entries) → Ends (parse_args ts es)
unfolding parse_args
parse_args-Ends [] es = tt
parse_args-Ends (t ∷ ts) no_entries = tt
parse_args-Ends (t ∷ ts) (entry v es) =
    Ends-then_read (chrpc_value_from_buffer (field_buf v)) _
      (chrpc_value_from_buffer-Ends (field_buf v))
      λ f k.
        Ends-if (chrpc_type_equals t f.type) _ _
          (Ends-then_read (parse_args ts es) _ (parse_args-Ends ts es) λ fs n. tt) tt

module _ {S C : Type 0} (impl : ChannelImpl C) (server : Server S C) (serves : Serves server) where
  error_told :
      (c : C) (err : Status) → (let r = reject impl c server err in ErrorTold impl c err r.0 r.1)
  error_told c err =
      chrpc_send_error_response-ErrorTold impl c server.attrs.max_msg_size err
        (omega (arith, serves.large))

  return_told :
      (c : C) (cmd : ServerCommand) (ret : Option Value) (t : ChrpcType)
      → t ≡ response_type
      → ProperReturn ret
      → (let mms = server.attrs.max_msg_size in
          let o = send_serialised impl c mms cmd (response_to_buffer t ret mms) in
          ReturnTold impl mms c ret cmd o.0 o.1)
  return_told c cmd ret t e h =
      let mms = server.attrs.max_msg_size in
      subst
        (λ u.
          let o = send_serialised impl c mms cmd (response_to_buffer u ret mms) in
          ReturnTold impl mms c ret cmd o.0 o.1)
        (sym e)
        (send_serialised-ReturnTold impl c mms cmd ret (omega (arith, serves.large)) serves.small h)

  -- the outcome of a handler
  abbrev HandledAs : C → List ℕ → ℕ → Status × C × S → Type 0
  HandledAs c msg id r = Handled impl server c msg id r.0 r.1 r.2

  module _ (c : C) (msg : List ℕ) (id : ℕ) (req : Value) (asks : Asks impl server msg req) where
    chrpc_send_response-Handled :
        (ep : Endpoint S) (args : List Value) (n : ℕ)
        → chrpc_endpoint_set_lookup server.ep_set (endpoint_name req.value) ≡ some ep
        → length ep.args ≡ count (arg_arrays req.value)
        → parse_args ep.args (arg_arrays req.value) ≡ ok args n
        → HandledAs c msg id (chrpc_send_response impl ep args id c server)
    unfolding chrpc_send_response
    chrpc_send_response-Handled ep args n found many parsed =
        let fits = chrpc_type_equals_wrapper_iff ep.ret (ep.func id server.server_state args).1 in
        elim (Bool-cases
          (chrpc_type_equals_wrapper ep.ret (ep.func id server.server_state args).1)) [
            | inr e ↦ rw e (wrong_return ep args asks found many parsed λ h. let f = fits.1 h in cc)
            | inl e ↦ rw e (
                called ep args asks found many parsed (fits.0 e) (
                  return_told c (ep.func id server.server_state args).0
                    (ep.func id server.server_state args).1 server.resp_type serves.responds
                    (serves.proper (endpoint_name req.value) ep found id server.server_state args)))
          ]

    call_endpoint-Handled :
        (ep : Endpoint S) (parsed : FromBuffer (List Value))
        → chrpc_endpoint_set_lookup server.ep_set (endpoint_name req.value) ≡ some ep
        → length ep.args ≡ count (arg_arrays req.value)
        → parse_args ep.args (arg_arrays req.value) ≡ parsed
        → Ends parsed
        → HandledAs c msg id (call_endpoint impl ep id c server parsed)
    call_endpoint-Handled ep (ok args n) found many e h =
        chrpc_send_response-Handled ep args n found many e
    call_endpoint-Handled ep (failed err) found many e h =
        other_args ep asks found many e (error_told c err)
    call_endpoint-Handled ep out_of_fuel found many e h = absurd h

    dispatch-Handled :
        (o : Option (Endpoint S))
        → chrpc_endpoint_set_lookup server.ep_set (endpoint_name req.value) ≡ o
        → HandledAs c msg id (dispatch impl o req id c server)
    unfolding dispatch
    dispatch-Handled none e = unknown asks e (error_told c unknown_endpoint)
    dispatch-Handled (some ep) e =
        elim (Bool-cases (length ep.args == count (arg_arrays req.value))) [
          | inr f ↦ rw f (other_count ep asks e (not-==→ne _ _ f) (error_told c argument_mismatch))
          | inl f ↦ rw f (
              call_endpoint-Handled ep (parse_args ep.args (arg_arrays req.value)) e (==→eq _ _ f)
                refl (parse_args-Ends ep.args (arg_arrays req.value)))
        ]

  request-Handled :
      (c : C) (msg : List ℕ) (id : ℕ) (req : Value) (k : ℕ) (b : Bool)
      → chrpc_type_equals server.req_type req.type ≡ b
      → chrpc_value_from_buffer msg ≡ ok req k
      → NamesEnd msg
      → HandledAs c msg id (
          if not b
          then reject impl c server bad_request
          else dispatch impl
              (chrpc_endpoint_set_lookup server.ep_set (endpoint_name req.value))
              req
              id
              c
              server)
  request-Handled c msg id req k false b e ends =
      let same = chrpc_type_equals_iff server.req_type req.type in
      other_type e (λ g. let h = same.1 (serves.requests ∙ sym g) in cc) (error_told c bad_request)
  request-Handled c msg id req k true b e ends =
      let same = chrpc_type_equals_iff server.req_type req.type in
      let typed = sym (same.0 b) ∙ serves.requests in
      dispatch-Handled c msg id req
        (record { size = k; reads = e; typed = typed; ends = ends req k e typed }) _ refl

  chrpc_handle_request-Handled :
      (c : C) (msg : List ℕ) (id : ℕ) (req : Value) (k : ℕ)
      → chrpc_value_from_buffer msg ≡ ok req k
      → NamesEnd msg
      → HandledAs c msg id (chrpc_handle_request impl req id c server)
  unfolding chrpc_handle_request
  chrpc_handle_request-Handled c msg id req k e ends =
      request-Handled c msg id req k (chrpc_type_equals server.req_type req.type) refl e ends

  handle_message-Handled :
      (c : C) (msg : List ℕ) (id : ℕ) (r : FromBuffer Value)
      → chrpc_value_from_buffer msg ≡ r
      → Ends r
      → NamesEnd msg
      → HandledAs c msg id (handle_message impl r id c server)
  unfolding handle_message
  handle_message-Handled c msg id (ok req k) e h ends =
      chrpc_handle_request-Handled c msg id req k e ends
  handle_message-Handled c msg id (failed err) e h ends = unreadable e (error_told c err)
  handle_message-Handled c msg id out_of_fuel e h ends = absurd h

  -- the outcome of a poll
  abbrev PolledAs : C → ℕ → Status × C × S → Type 0
  PolledAs c id r = Polled impl server c id r.0 r.1 r.2

  after_receive-Polled :
      (c c' : C) (id : ℕ) (r : Channel.Status × Option (List ℕ × ℕ) × C)
      → impl.refresh c ≡ (chn_success, c')
      → impl.receive c' server.attrs.max_msg_size ≡ r
      → (r.0 ≡ chn_success → NamesEnd (received r.1))
      → PolledAs c id (after_receive impl id c' server (r.0, r.1, some r.2))
  unfolding after_receive
  after_receive-Polled c c' id (chn_success, out, d) fresh e ends = handled fresh e (
      handle_message-Handled d (received out) id (chrpc_value_from_buffer (received out)) refl
        (chrpc_value_from_buffer-Ends (received out)) (ends refl))
  after_receive-Polled c c' id (chn_no_incoming_msg, out, d) fresh e ends = nothing_came fresh e
  after_receive-Polled c c' id (_, out, d) fresh e ends = not_received fresh e (λ f. cc) (λ f. cc)

  after_refresh-Polled :
      (c : C) (id : ℕ) (r : Channel.Status × C)
      → impl.refresh c ≡ r
      → ((out : Option (List ℕ × ℕ)) (d : C)
          → impl.receive r.1 server.attrs.max_msg_size ≡ (chn_success, out, d)
          → NamesEnd (received out))
      → PolledAs c id (after_refresh impl id c server (r.0, some r.1))
  unfolding after_refresh
  after_refresh-Polled c id (chn_success, c') e ends =
      after_receive-Polled c c' id (impl.receive c' server.attrs.max_msg_size) e refl (λ f.
        ends _ _ (let r = impl.receive c' server.attrs.max_msg_size in ap (λ st. (st, r.1, r.2)) f))
  after_refresh-Polled c id (_, c') e ends = not_refreshed e (λ f. cc)

  -- A poll of a channel ends in one of these ways. A refresh or a receive with a status that is
  -- neither success nor, at the receive, no message gives a channel error; no message gives that
  -- the channel is empty. A message that is not a value is answered with the error of its reading,
  -- a value of another type with a bad request, a name without an endpoint with an unknown
  -- endpoint, another number of arguments with an argument mismatch, and arguments that do not
  -- parse with their error; these leave the state of the server. Otherwise the endpoint is called,
  -- and its state is taken over: a return value of another type than declared gives an internal
  -- error and no message, and any other is answered with a success and the value, after which the
  -- server keeps the channel or disconnects as the endpoint said; where it has no room with the
  -- server or the channel, a buffer too small is answered. Each answer is one message that reads
  -- back as that status and value, and if the channel refuses it the poll gives a channel error.
  -- The server has the types of requests and responses, its largest size is from 128 to 2 ^ 32,
  -- its endpoints return proper values, and a name that is received ends in its NUL.
  pub chrpc_poll_channel-Polled :
      (ele : QueueEle C)
      → ((out : Option (List ℕ × ℕ)) (d : C)
          → impl.receive (impl.refresh ele.chn).1 server.attrs.max_msg_size ≡ (chn_success, out, d)
          → NamesEnd (received out))
      → let (st, chn, s) = chrpc_poll_channel impl ele server in
        Polled impl server ele.chn ele.id st chn s
  unfolding chrpc_poll_channel
  chrpc_poll_channel-Polled ele ends =
      after_refresh-Polled ele.chn ele.id (impl.refresh ele.chn) refl ends
