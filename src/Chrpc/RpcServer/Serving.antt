-- ===== src/Chrpc/RpcServer/Serving.antt =====
-- The queue of channels and the workers: chrpc/src/rpc_server.c. A worker's turn is taken apart at
-- its critical sections: a channel is polled from the queue, served, and pushed back or deleted.
-- The mutexes, the threads and the sleeping are not modelled.
use chlibs.Common.{
  ℕ, zero, suc, ◌+◌, ◌-◌, ◌^◌, ◌%◌, Bool, true, false, not, ◌&&◌, ◌||◌, Option, none, some, List,
  [], ◌∷◌, ltb, ◌==◌, if◌then◌else◌,
}
use chlibs.Chutil.Queue.{Queue, new_queue, q_cap, q_push, q_poll}
use chlibs.Chrpc.Channel
use chlibs.Chrpc.Channel.{ChannelImpl, chn_success, chn_max_msg_size}
use chlibs.Chrpc.SerialType.{
  Status, success, server_creation_error, server_full, argument_mismatch, buffer_too_small,
  client_channel_empty, stored_or_zero,
}
use chlibs.Chrpc.RpcServer.{
  EndpointSet, ServerAttrs, QueueEle, Server, server_buf_min_size, request_type, response_type,
}
use chlibs.Chrpc.RpcServer.Handling.{chrpc_poll_channel}

-- the new server, around its queue
abbrev pub empty_server :
    {S C : Type 0} → S → ServerAttrs S → EndpointSet S → Queue (QueueEle C) → Server S C
empty_server ss attrs eps q = record {
  server_state = ss;
  attrs = attrs;
  id_counter = 0;
  num_channels = 0;
  queue = q;
  should_exit = false;
  ep_set = eps;
  req_type = request_type;
  resp_type = response_type;
}

-- A queue that is not NULL is what a capacity above 0 gives.
abbrev pub server_created :
    {S C : Type 0}
    → S
    → ServerAttrs S
    → EndpointSet S
    → Option (Queue (QueueEle C))
    → Status × Option (Server S C)
server_created ss attrs eps none = (server_creation_error, none)
server_created ss attrs eps (some q) = (success, some (empty_server ss attrs eps q))

-- `server` says that the pointer for the result is not NULL, and `cells` is what `malloc` gave for
-- the queue, of elements of 24 bytes. The threads are started.
unfoldable pub new_chrpc_server :
    {S C : Type 0}
    → (server : Bool) → S
    → ServerAttrs S
    → EndpointSet S
    → (cells : List (QueueEle C)) → Status × Option (Server S C)
unfolding new_queue
new_chrpc_server false ss attrs eps cells = (server_creation_error, none)
new_chrpc_server true ss attrs eps cells =
    if (attrs.max_connections == 0)
      || (attrs.num_workers == 0)
      || ltb attrs.max_msg_size server_buf_min_size
    then (server_creation_error, none)
    else if ltb attrs.max_connections attrs.num_workers
    then (server_creation_error, none)
    else server_created ss attrs eps (new_queue attrs.max_connections 24 cells)

abbrev pub is_success : Channel.Status → Bool
is_success chn_success = true
is_success _ = false

abbrev pub uint64_max : ℕ
uint64_max = 2 ^ 64 - 1

abbrev pub told : {S : Type 0} → Option (ℕ → S → S) → ℕ → S → S
told none id s = s
told (some f) id s = f id s

module _ {C : Type 0} where
  -- The verdict on the channel and the element that it is pushed back as.
  unfoldable pub judge : Status → (idle_timeout now : ℕ) → QueueEle C → Bool × QueueEle C
  judge client_channel_empty idle_timeout now ele =
      (ltb 0 idle_timeout && ltb idle_timeout (now - ele.since_last_req), ele)
  judge success idle_timeout now ele = (false, record ele { since_last_req = now })
  judge _ idle_timeout now ele = (true, ele)

  -- The channels that are left in the queue when all workers have ended are deleted, in order; the
  -- number of those left in the queue is enough fuel.
  unfoldable pub drain_channels : ℕ → Queue (QueueEle C) → Option (List C)
  unfolding q_poll
  drain_channels zero q = none
  drain_channels (suc fuel) q =
      let (e, ele, q') = q_poll q true in
      let rest = drain_channels fuel q' in
      elim ele [ none ↦ some [] | some x ↦ elim rest [ none ↦ none | some xs ↦ some (x.chn ∷ xs) ] ]

module _ {S C : Type 0} where
  -- the channel goes to the back of the queue, under the next number
  unfoldable pub enqueue_channel : Server S C → C → (now : ℕ) → Server S C
  unfolding q_push
  enqueue_channel server chn now =
      let ele : QueueEle C = record { id = server.id_counter; since_last_req = now; chn = chn } in
      record server {
        id_counter = (server.id_counter + 1) % 2 ^ 64;
        queue = (q_push server.queue (some ele)).1;
        num_channels = (server.num_channels + 1) % 2 ^ 64;
      }

  -- the first section of a turn
  unfoldable pub worker_poll : Server S C → Option (QueueEle C) × Server S C
  unfolding q_poll
  worker_poll server =
      let (e, ele, q) = q_poll server.queue true in (ele, record server { queue = q })

  -- the last section of a turn: whether the channel is deleted, and the element
  unfoldable pub worker_return : Bool × QueueEle C → Server S C → Server S C
  unfolding q_push
  worker_return (true, ele) server = record server {
    num_channels = (server.num_channels + uint64_max) % 2 ^ 64;
    server_state = told server.attrs.on_disconnect ele.id server.server_state;
  }
  worker_return (false, ele) server = record server { queue = (q_push server.queue (some ele)).1 }

  unfoldable pub delete_chrpc_server : Server S C → Option (List C)
  unfolding drain_channels
  delete_chrpc_server server = drain_channels (suc server.queue.len) server.queue

module _ {S C : Type 0} (impl : ChannelImpl C) where
  -- `none` is NULL.
  unfoldable pub chrpc_server_give_channel : Server S C → Option C → (now : ℕ) → Status × Server S C
  unfolding chn_max_msg_size enqueue_channel q_cap
  chrpc_server_give_channel server none now = (argument_mismatch, server)
  chrpc_server_give_channel server (some chn) now =
      let (st, stored) = chn_max_msg_size impl (some chn) true in
      let mms = stored_or_zero stored in
      if not (is_success st) || ltb mms server_buf_min_size || ltb server.attrs.max_msg_size mms
      then (buffer_too_small, server)
      else if server.num_channels == q_cap server.queue
      then (server_full, server)
      else if server.id_counter == uint64_max
      then (server_full, server)
      else (success, enqueue_channel server chn now)

  -- the middle of a turn
  unfoldable pub worker_serve :
      QueueEle C → (now : ℕ) → Server S C → (Bool × QueueEle C) × Server S C
  unfolding chrpc_poll_channel judge
  worker_serve ele now server =
      let (status, chn, s) = chrpc_poll_channel impl ele server in
      (
        judge status server.attrs.idle_timeout now (record ele { chn = chn }),
        record server { server_state = s },
      )

  -- one turn of a worker that no other worker interrupts
  unfoldable pub worker_turn : (now : ℕ) → Server S C → Server S C
  unfolding worker_poll worker_serve worker_return
  worker_turn now server = if server.should_exit then server else elim (worker_poll server).0 [
    | none ↦ server
    | some ele ↦
        let (verdict, server') = worker_serve ele now (worker_poll server).1 in
        worker_return verdict server'
  ]
