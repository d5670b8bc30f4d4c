-- ===== src/Chrpc/RpcServer/Outcomes.antt =====
-- What may become of a message that a server receives, as relations.
use chlibs.Common.{ℕ, ◌^◌, ◌≤◌, ◌<◌, ◌≡◌, Option, none, some, List, length}
use chlibs.Chrpc.Channel
use chlibs.Chrpc.Channel.{ChannelImpl, chn_success, chn_no_incoming_msg}
use chlibs.Chrpc.SerialType.{
  Status, client_channel_error, client_channel_empty, bad_request, unknown_endpoint,
  argument_mismatch, server_internal_error, ok, failed, ChrpcType,
}
use chlibs.Chrpc.SerialValue.{Value, count}
use chlibs.Chrpc.SerialValue.Encoding.{IsTerminated}
use chlibs.Chrpc.SerialValue.Reading.{chrpc_value_from_buffer}
use chlibs.Chrpc.SerialValue.RoundTrip.{ProperReturn}
use chlibs.Chrpc.RpcServer.{Endpoint, Server, request_type, response_type}
use chlibs.Chrpc.RpcServer.Endpoints.{chrpc_endpoint_set_lookup}
use chlibs.Chrpc.RpcServer.Handling.{parse_args, endpoint_name, arg_arrays, received}
use chlibs.Chrpc.RpcServer.Delivery.{ErrorTold, ReturnTold}

-- What the theorem asks of a server: the types and sizes that it was made with, and that its
-- endpoints return proper values.
pub record Serves {S C : Type 0} (server : Server S C) : Type 0 where
  pub requests : server.req_type ≡ request_type
  pub responds : server.resp_type ≡ response_type
  pub large : 128 ≤ server.attrs.max_msg_size
  pub small : server.attrs.max_msg_size < 2 ^ 32
  pub proper :
      (name : List ℕ) (ep : Endpoint S)
      → chrpc_endpoint_set_lookup server.ep_set name ≡ some ep
      → (id : ℕ) (s : S) (args : List Value) → ProperReturn (ep.func id s args).1

-- The name in a request of the right type ends in a NUL; else the code reads behind its block.
abbrev pub NamesEnd : List ℕ → Type 0
NamesEnd msg =
    (req : Value) (k : ℕ)
    → chrpc_value_from_buffer msg ≡ ok req k
    → req.type ≡ request_type
    → IsTerminated (endpoint_name req.value)

-- A return value, or none, is of the declared type, or of none.
abbrev pub TypeFits : Option ChrpcType → Option Value → Type 0
TypeFits none none = Unit {0}
TypeFits (some t) (some v) = t ≡ v.type
TypeFits _ _ = ⊥

module _ {S C : Type 0} (impl : ChannelImpl C) (server : Server S C) where
  -- the request that a message is, of the right type and with a name that ends
  pub record Asks (msg : List ℕ) (req : Value) : Type 0 where
    pub size : ℕ
    pub reads : chrpc_value_from_buffer msg ≡ ok req size
    pub typed : req.type ≡ request_type
    pub ends : IsTerminated (endpoint_name req.value)

  -- What becomes of a message that came over the channel `c` of number `id`.
  pub data Handled (c : C) (msg : List ℕ) (id : ℕ) : Status → C → S → Type 0 where
    unreadable :
        {err st : Status} {d : C}
        → chrpc_value_from_buffer msg ≡ failed err
        → ErrorTold impl c err st d
        → Handled c msg id st d server.server_state
    other_type :
        {req : Value} {k : ℕ} {st : Status} {d : C}
        → chrpc_value_from_buffer msg ≡ ok req k
        → ¬ (req.type ≡ request_type)
        → ErrorTold impl c bad_request st d
        → Handled c msg id st d server.server_state
    unknown :
        {req : Value} {st : Status} {d : C}
        → Asks msg req
        → chrpc_endpoint_set_lookup server.ep_set (endpoint_name req.value) ≡ none
        → ErrorTold impl c unknown_endpoint st d
        → Handled c msg id st d server.server_state
    other_count :
        {req : Value} {st : Status} {d : C} (ep : Endpoint S)
        → Asks msg req
        → chrpc_endpoint_set_lookup server.ep_set (endpoint_name req.value) ≡ some ep
        → ¬ (length ep.args ≡ count (arg_arrays req.value))
        → ErrorTold impl c argument_mismatch st d
        → Handled c msg id st d server.server_state
    other_args :
        {req : Value} {err st : Status} {d : C} (ep : Endpoint S)
        → Asks msg req
        → chrpc_endpoint_set_lookup server.ep_set (endpoint_name req.value) ≡ some ep
        → length ep.args ≡ count (arg_arrays req.value)
        → parse_args ep.args (arg_arrays req.value) ≡ failed err
        → ErrorTold impl c err st d
        → Handled c msg id st d server.server_state
    wrong_return :
        {req : Value} {n : ℕ} (ep : Endpoint S) (args : List Value)
        → Asks msg req
        → chrpc_endpoint_set_lookup server.ep_set (endpoint_name req.value) ≡ some ep
        → length ep.args ≡ count (arg_arrays req.value)
        → parse_args ep.args (arg_arrays req.value) ≡ ok args n
        → ¬ TypeFits ep.ret (ep.func id server.server_state args).1
        → Handled c msg id server_internal_error c (ep.func id server.server_state args).2
    called :
        {req : Value} {n : ℕ} {st : Status} {d : C} (ep : Endpoint S) (args : List Value)
        → Asks msg req
        → chrpc_endpoint_set_lookup server.ep_set (endpoint_name req.value) ≡ some ep
        → length ep.args ≡ count (arg_arrays req.value)
        → parse_args ep.args (arg_arrays req.value) ≡ ok args n
        → TypeFits ep.ret (ep.func id server.server_state args).1
        → ReturnTold impl server.attrs.max_msg_size c
            (ep.func id server.server_state args).1
            (ep.func id server.server_state args).0
            st
            d
        → Handled c msg id st d (ep.func id server.server_state args).2

  -- How a poll of a channel `c` of number `id` ends.
  pub data Polled (c : C) (id : ℕ) : Status → C → S → Type 0 where
    not_refreshed :
        {d : C} {why : Channel.Status}
        → impl.refresh c ≡ (why, d)
        → ¬ (why ≡ chn_success)
        → Polled c id client_channel_error d server.server_state
    nothing_came :
        {c' d : C} {out : Option (List ℕ × ℕ)}
        → impl.refresh c ≡ (chn_success, c')
        → impl.receive c' server.attrs.max_msg_size ≡ (chn_no_incoming_msg, out, d)
        → Polled c id client_channel_empty d server.server_state
    not_received :
        {c' d : C} {out : Option (List ℕ × ℕ)} {why : Channel.Status}
        → impl.refresh c ≡ (chn_success, c')
        → impl.receive c' server.attrs.max_msg_size ≡ (why, out, d)
        → ¬ (why ≡ chn_success)
        → ¬ (why ≡ chn_no_incoming_msg)
        → Polled c id client_channel_error d server.server_state
    handled :
        {c' d e : C} {out : Option (List ℕ × ℕ)} {st : Status} {s : S}
        → impl.refresh c ≡ (chn_success, c')
        → impl.receive c' server.attrs.max_msg_size ≡ (chn_success, out, d)
        → Handled d (received out) id st e s
        → Polled c id st e s
