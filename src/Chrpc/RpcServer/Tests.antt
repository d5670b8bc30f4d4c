-- ===== src/Chrpc/RpcServer/Tests.antt =====
-- A server over a pipe of two lists of messages, with one endpoint of no arguments.
use chlibs.Common.{
  ℕ, ◌+◌, ◌≤◌, ◌≡◌, ◌↔◌, refl, sym, ◌∙◌, ap, subst, Bool, true, false, Option, none, some, List, [],
  ◌∷◌, ◌++◌, map, arith, length, take, replicate, ltb, if◌then◌else◌,
}
use chlibs.Chutil.Queue.{Queue, q_push, new_queue}
use chlibs.Chutil.Queue.Models.{Models}
use chlibs.Chutil.HashMap.{HashMap, chain_at, hm_put, hm_check_resize}
use chlibs.Chrpc.Channel
use chlibs.Chrpc.Channel.{ChannelImpl, chn_success, chn_invalid_msg_size, chn_no_incoming_msg}
use chlibs.Chrpc.SerialType.{chrpc_type_from_buffer, success, ok, prim, byte}
use chlibs.Chrpc.SerialValue.{
  Value, num, num_arr, text, struct_entries, array_entries, no_entries, entry, c_str,
}
use chlibs.Chrpc.SerialType.Encoding.{encode_type}
use chlibs.Chrpc.SerialValue.Encoding.{encode_value, IsTerminated}
use chlibs.Chrpc.SerialValue.Reading.{chrpc_value_from_buffer}
use chlibs.Chrpc.SerialValue.RoundTrip.{ProperReturn, encode_return}
use chlibs.Chrpc.RpcServer.{
  Endpoint, EndpointSet, ServerAttrs, QueueEle, Server, sc_keep_alive, request_type, response_type,
}
use chlibs.Chrpc.RpcServer.Endpoints.{
  s_hash, s_equals, new_chrpc_endpoint_set, chrpc_endpoint_set_lookup,
}
use chlibs.Chrpc.RpcServer.Lookup.{
  named, Distinct, chrpc_endpoint_set_lookup-named, new_chrpc_endpoint_set_iff,
}
use chlibs.Chrpc.RpcServer.Responding.{response_to_buffer}
use chlibs.Chrpc.RpcServer.Responses.{response_value, response_reads_back}
use chlibs.Chrpc.RpcServer.Handling.{endpoint_name, received, chrpc_poll_channel, parse_args}
use chlibs.Chrpc.RpcServer.Arguments.{parse_args-types}
use chlibs.Chrpc.RpcServer.Outcomes.{Serves, NamesEnd, Polled}
use chlibs.Chrpc.RpcServer.Answers.{chrpc_poll_channel-Polled}
use chlibs.Chrpc.RpcServer.Serving.{
  worker_poll, worker_serve, worker_return, empty_server, new_chrpc_server,
  chrpc_server_give_channel, delete_chrpc_server,
}
use chlibs.Chrpc.RpcServer.Interleaving.{
  polled, served, gives, polls, serves, returns, Reach, here, there,
}
use chlibs.Chrpc.RpcServer.Invariant.{SystemOk}
use chlibs.Chrpc.RpcServer.Reachable.{
  new_chrpc_server-Reach, push_back_finds_room, delete_chrpc_server-Reach,
}

-- the messages to receive and those sent
abbrev Pipe : Type 0
Pipe = List (List ℕ) × List (List ℕ)

abbrev pipe_send : Pipe → List ℕ → ℕ → Channel.Status × Pipe
pipe_send c msg n =
    if ltb 128 n then (chn_invalid_msg_size, c) else (chn_success, (c.0, c.1 ++ take n msg ∷ []))

abbrev pipe_receive : Pipe → ℕ → Channel.Status × Option (List ℕ × ℕ) × Pipe
pipe_receive ([], outs) n = (chn_no_incoming_msg, none, ([], outs))
pipe_receive (m ∷ ins, outs) n = (chn_success, some (m, length m), (ins, outs))

abbrev pipe : ChannelImpl Pipe
pipe = record {
  max_msg_size = λ c. (chn_success, 128);
  send = pipe_send;
  refresh = λ c. (chn_success, c);
  incoming_len = λ c. (chn_no_incoming_msg, none);
  receive = pipe_receive;
}

-- "hi", which counts its calls and returns nothing
abbrev hi : Endpoint ℕ
hi = record {
  name = 104 ∷ 105 ∷ [];
  ret = none;
  args = [];
  func = λ id s args. (sc_keep_alive, none, s + 1);
}

abbrev empty_map : HashMap (List ℕ) (Endpoint ℕ)
empty_map = record {
  num_keys = 0;
  chains_cap = 8;
  chains = replicate 8 [];
  iter_chain_ind = 0;
  iter = [];
}

abbrev hi_set : EndpointSet ℕ
hi_set = record { name_map = hm_put s_hash s_equals empty_map hi.name hi; endpoints = hi ∷ [] }

makes_set : new_chrpc_endpoint_set 0 [] (hi ∷ []) ≡ some hi_set
unfolding new_chrpc_endpoint_set chain_at s_hash
makes_set = refl

refuses_twin : new_chrpc_endpoint_set 0 [] (hi ∷ hi ∷ []) ≡ none
unfolding new_chrpc_endpoint_set chain_at s_hash hm_put hm_check_resize s_equals
refuses_twin = refl

chrpc_endpoint_set_lookup-named_example :
    chrpc_endpoint_set_lookup hi_set (104 ∷ 105 ∷ 0 ∷ [])
    ≡ named (c_str (104 ∷ 105 ∷ 0 ∷ [])) (hi ∷ [])
chrpc_endpoint_set_lookup-named_example =
    chrpc_endpoint_set_lookup-named 0 [] (hi ∷ []) hi_set (104 ∷ 105 ∷ 0 ∷ []) makes_set

new_chrpc_endpoint_set_iff_example :
    ((set : EndpointSet ℕ) × (new_chrpc_endpoint_set 0 [] (hi ∷ []) ≡ some set))
    ↔ ((1 ≤ 1) × (1 ≤ 300) × Distinct (hi ∷ []))
new_chrpc_endpoint_set_iff_example = new_chrpc_endpoint_set_iff 0 [] (hi ∷ [])

abbrev attrs : ServerAttrs ℕ
attrs = record {
  max_msg_size = 128;
  max_connections = 2;
  num_workers = 1;
  idle_timeout = 0;
  on_disconnect = none;
}

abbrev spare : QueueEle Pipe
spare = record { id = 0; since_last_req = 0; chn = ([], []) }

abbrev cells : List (QueueEle Pipe)
cells = spare ∷ spare ∷ []

abbrev empty_queue : Queue (QueueEle Pipe)
empty_queue = record { cap = 2; len = 0; cell_size = 24; i = 0; table = cells }

abbrev server : Server ℕ Pipe
server = empty_server 0 attrs hi_set empty_queue

makes_server : new_chrpc_server true 0 attrs hi_set cells ≡ (success, some server)
unfolding new_chrpc_server new_queue
makes_server = refl

abbrev seven : Value
seven = record { type = prim byte; value = num (7 ∷ []) }

length-seven : length (encode_return (some seven)) ≡ 2
unfolding encode_type encode_value
length-seven = refl

response_reads_back_example :
    let (status, bytes, written) = response_to_buffer response_type (some seven) 128 in
    (status ≡ success)
    × (chrpc_value_from_buffer (bytes ++ [])
        ≡ ok (response_value success (some seven)) (length bytes))
    × (written ≡ some (length bytes))
response_reads_back_example =
    response_reads_back (some seven) 128 [] (tt, (refl, refl), tt) (omega (arith, length-seven))
      (omega (arith, length-seven))

parses_seven :
    parse_args (prim byte ∷ []) (entry (num_arr 2 (0 ∷ 7 ∷ [])) no_entries) ≡ ok (seven ∷ []) 2
unfolding parse_args chrpc_type_from_buffer
parses_seven = refl

parse_args-types_example : map (λ v. v.type) (seven ∷ []) ≡ prim byte ∷ []
parse_args-types_example =
    parse_args-types (prim byte ∷ []) (entry (num_arr 2 (0 ∷ 7 ∷ [])) no_entries) (seven ∷ []) 2
      refl parses_seven

hi_only :
    (b : Bool) (ep : Endpoint ℕ)
    → (if b then some hi else none) ≡ some ep
    → (id s : ℕ) (args : List Value) → ProperReturn (ep.func id s args).1
hi_only true ep e id s args =
    let same : hi ≡ ep = cc in subst (λ x. ProperReturn (x.func id s args).1) same tt
hi_only false ep e id s args = cc

server-Serves : Serves server
server-Serves = record {
  requests = refl;
  responds = refl;
  large = omega arith;
  small = omega arith;
  proper = λ name ep e.
      hi_only (s_equals hi.name (c_str name)) ep
        (sym (chrpc_endpoint_set_lookup-named 0 [] (hi ∷ []) hi_set name makes_set) ∙ e);
}

-- a channel with a request, and one without
abbrev request_bytes : List ℕ
request_bytes = 10 ∷ 2 ∷ 9 ∷ 11 ∷ 11 ∷ 0 ∷ 3 ∷ 0 ∷ 0 ∷ 0 ∷ 104 ∷ 105 ∷ 0 ∷ 0 ∷ 0 ∷ 0 ∷ 0 ∷ []

abbrev busy : QueueEle Pipe
busy = record { id = 0; since_last_req = 0; chn = (request_bytes ∷ [], []) }

abbrev requested : Value
requested = record {
  type = request_type;
  value =
      struct_entries
        (entry (text (104 ∷ 105 ∷ 0 ∷ [])) (entry (array_entries no_entries) no_entries));
}

reads_request : chrpc_value_from_buffer request_bytes ≡ ok requested 17
unfolding chrpc_value_from_buffer chrpc_type_from_buffer
reads_request = refl

request-NamesEnd : NamesEnd request_bytes
unfolding c_str
request-NamesEnd req k e typed =
    let same : requested ≡ req = cc (reads_request, e) in
    subst (λ r. IsTerminated (endpoint_name r.value)) same refl

busy-NamesEnd :
    (out : Option (List ℕ × ℕ)) (d : Pipe)
    → pipe_receive busy.chn 128 ≡ (chn_success, out, d)
    → NamesEnd (received out)
busy-NamesEnd out d e = subst (λ o. NamesEnd (received o)) (ap (λ r. r.1) e) request-NamesEnd

chrpc_poll_channel-Polled_example :
    let (st, chn, s) = chrpc_poll_channel pipe busy server in
    Polled pipe server busy.chn busy.id st chn s
chrpc_poll_channel-Polled_example =
    chrpc_poll_channel-Polled pipe server server-Serves busy busy-NamesEnd

abbrev idle : QueueEle Pipe
idle = record { id = 0; since_last_req = 5; chn = ([], []) }

abbrev given_server : Server ℕ Pipe
given_server = record server {
  id_counter = 1;
  num_channels = 1;
  queue = record empty_queue { len = 1; table = idle ∷ spare ∷ [] };
}

abbrev polled_server : Server ℕ Pipe
polled_server = record given_server {
  queue = record { cap = 2; len = 0; cell_size = 24; i = 1; table = idle ∷ spare ∷ [] };
}

gives_idle : (chrpc_server_give_channel pipe server (some ([], [])) 5).1 ≡ given_server
unfolding chrpc_server_give_channel
gives_idle = refl

polls_idle : worker_poll given_server ≡ (some idle, polled_server)
unfolding worker_poll
polls_idle = refl

serves_idle : worker_serve pipe idle 6 polled_server ≡ ((false, idle), polled_server)
unfolding worker_serve
serves_idle = refl

Reach-polled :
    Reach pipe
      record { server = server; turns = [] }
      record { server = polled_server; turns = polled idle ∷ [] }
Reach-polled =
    there
      (subst
        (λ s. Reach pipe record { server = server; turns = [] } record { server = s; turns = [] })
        gives_idle (there here (gives server [] (some ([], [])) 5)))
      (polls given_server polled_server [] idle refl polls_idle)

Reach-served :
    Reach pipe
      record { server = server; turns = [] }
      record { server = polled_server; turns = served (false, idle) ∷ [] }
Reach-served =
    subst
      (λ r.
        Reach pipe record { server = server; turns = [] }
          record { server = r.1; turns = served r.0 ∷ [] })
      serves_idle (there Reach-polled (serves polled_server [] [] idle 6))

new_chrpc_server-Reach_example :
    (xs : List (QueueEle Pipe)) × SystemOk
      record { server = polled_server; turns = polled idle ∷ [] }
      xs
new_chrpc_server-Reach_example =
    new_chrpc_server-Reach pipe 0 attrs hi_set cells server
      record { server = polled_server; turns = polled idle ∷ [] } refl (omega arith) makes_server
      Reach-polled

push_back_finds_room_example : (q_push polled_server.queue (some idle)).0 ≡ 0
push_back_finds_room_example =
    push_back_finds_room pipe 0 attrs hi_set cells server polled_server [] [] idle refl
      (omega arith) makes_server Reach-served

delete_chrpc_server-Reach_example :
    (xs : List (QueueEle Pipe)) × Models (worker_return (false, idle) polled_server).queue xs
    × (delete_chrpc_server (worker_return (false, idle) polled_server) ≡ some (map (λ x. x.chn) xs))
    × ((worker_return (false, idle) polled_server).num_channels ≡ length xs)
delete_chrpc_server-Reach_example =
    delete_chrpc_server-Reach pipe 0 attrs hi_set cells server
      (worker_return (false, idle) polled_server) refl (omega arith) makes_server
      (there Reach-served (returns polled_server [] [] (false, idle)))
