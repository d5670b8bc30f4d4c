-- ===== src/Chrpc/RpcServer/Reachable.antt =====
-- What holds of a server after any interleaving of its workers and of those who give it channels.
use chlibs.Common.{
  suc, ◌^◌, ◌≤◌, ◌≡◌, refl, sym, ◌∙◌, ap, subst, Bool, true, false, ◌||◌, Option, none, some, List,
  [], ◌∷◌, ◌++◌, map, arith, length, length-append, not-ltb, if◌then◌else◌,
}
use chlibs.Chutil.Queue.{Queue, new_queue, q_push}
use chlibs.Chutil.Queue.Fifo.{fifo_poll}
use chlibs.Chutil.Queue.Models.{Models, new_queue-Models, q_poll-Models}
use chlibs.Chrpc.Channel.{ChannelImpl}
use chlibs.Chrpc.SerialType.{success, server_creation_error, Status}
use chlibs.Chrpc.RpcServer.{QueueEle, Server, ServerAttrs, EndpointSet}
use chlibs.Chrpc.RpcServer.Serving.{
  empty_server, server_created, new_chrpc_server, drain_channels, delete_chrpc_server,
}
use chlibs.Chrpc.RpcServer.Interleaving.{
  Turn, served, System, Step, gives, polls, serves, returns, Reach, here, there,
}
use chlibs.Chrpc.RpcServer.Invariant.{
  SystemOk, gives-SystemOk, polls-SystemOk, serves-SystemOk, returns-SystemOk, pushed,
}

module _ {S C : Type 0} (impl : ChannelImpl C) where
  Step-SystemOk :
      {a b : System S C} {xs : List (QueueEle C)}
      → Step impl a b
      → SystemOk a xs
      → (ys : List (QueueEle C)) × SystemOk b ys
  Step-SystemOk {xs = xs} (gives server turns chn now) ok =
      gives-SystemOk impl server turns xs chn now ok
  Step-SystemOk {xs = xs} (polls server server' turns ele run e) ok =
      polls-SystemOk impl server server' turns xs ele ok e
  Step-SystemOk {xs = xs} (serves server before after ele now) ok =
      (xs, serves-SystemOk impl server before after xs ele now ok)
  Step-SystemOk {xs = xs} (returns server before after verdict) ok =
      returns-SystemOk impl server before after xs verdict ok

  Reach-SystemOk :
      {a b : System S C} {xs : List (QueueEle C)}
      → Reach impl a b
      → SystemOk a xs
      → (ys : List (QueueEle C)) × SystemOk b ys
  Reach-SystemOk {xs = xs} here ok = (xs, ok)
  Reach-SystemOk (there r s) ok = let (ys, mid) = Reach-SystemOk r ok in Step-SystemOk s mid

or_false : (a b : Bool) → (a || b) ≡ false → (a ≡ false) × (b ≡ false)
or_false true b e = cc
or_false false true e = cc
or_false false false e = (refl, refl)

module _ {S C : Type 0} where
  abbrev guarded :
      Bool
      → Bool
      → S
      → ServerAttrs S
      → EndpointSet S
      → Option (Queue (QueueEle C))
      → Status × Option (Server S C)
  guarded b1 b2 ss attrs eps o =
      if b1
      then (server_creation_error, none)
      else if b2
      then (server_creation_error, none)
      else server_created ss attrs eps o

  -- A server was made around a queue, and no guard refused it.
  made_around :
      (b1 b2 : Bool) (ss : S) (attrs : ServerAttrs S) (eps : EndpointSet S)
      (o : Option (Queue (QueueEle C))) (server : Server S C)
      → guarded b1 b2 ss attrs eps o ≡ (success, some server)
      → (b1 ≡ false)
        × (b2 ≡ false)
        × (q : Queue (QueueEle C)) × (o ≡ some q)
        × (server ≡ empty_server ss attrs eps q)
  made_around true b2 ss attrs eps o server e = cc
  made_around false true ss attrs eps o server e = cc
  made_around false false ss attrs eps none server e = cc
  made_around false false ss attrs eps (some q) server e = (refl, refl, q, refl, cc)

  -- What a new server was made of.
  pub record NewServer (ss : S) (attrs : ServerAttrs S) (eps : EndpointSet S) (server : Server S C)
      : Type 0 where
    pub queue : Queue (QueueEle C)
    pub eq : server ≡ empty_server ss attrs eps queue
    pub models : Models queue []
    pub cap : queue.cap ≡ attrs.max_connections
    pub large : 128 ≤ attrs.max_msg_size

  new_chrpc_server-NewServer :
      (ss : S) (attrs : ServerAttrs S) (eps : EndpointSet S) (cells : List (QueueEle C))
      (server : Server S C)
      → length cells ≡ attrs.max_connections
      → attrs.max_connections ≤ 2 ^ 63
      → new_chrpc_server true ss attrs eps cells ≡ (success, some server)
      → NewServer ss attrs eps server
  unfolding new_chrpc_server
  new_chrpc_server-NewServer ss attrs eps cells server len small e =
      let (a, b, q, o, eq) =
        made_around _ _ ss attrs eps (new_queue attrs.max_connections 24 cells) server e in
      let (m, cap) = (new_queue-Models attrs.max_connections 24 cells len small).1 q o in
      record { queue = q; eq = eq; models = m; cap = cap; large = not-ltb _ _ (or_false _ _ a).1 }

  NewServer-SystemOk :
      {ss : S} {attrs : ServerAttrs S} {eps : EndpointSet S} {server : Server S C}
      → NewServer ss attrs eps server
      → SystemOk record { server = server; turns = [] } []
  NewServer-SystemOk n =
      subst (λ s. SystemOk record { server = s; turns = [] } []) (sym n.eq)
        (record {
          models = n.models;
          counted = refl;
          bounded = omega arith;
          counter = omega arith;
          unique = λ i. omega arith;
          fresh = λ i h. refl;
        })

-- The channels that a drain deletes are those of the queue.
drain_channels-eq :
    {C : Type 0} (xs : List (QueueEle C)) {q : Queue (QueueEle C)}
    → Models q xs
    → drain_channels (suc (length xs)) q ≡ some (map (λ x. x.chn) xs)
unfolding drain_channels fifo_poll
drain_channels-eq [] {q} m =
    let (st, out, m', cap) = q_poll-Models true m in rw (drain_channels, out) refl
drain_channels-eq (x ∷ xs) {q} m =
    let (st, out, m', cap) = q_poll-Models true m in
    rw (drain_channels, out, drain_channels-eq xs m') refl

module _ {S C : Type 0} (impl : ChannelImpl C) (ss : S) (attrs : ServerAttrs S)
    (eps : EndpointSet S) (cells : List (QueueEle C)) where
  -- After any interleaving of workers and callers from a new server, the queue is well formed, the
  -- count of channels is the number in the queue and with the workers and at most the capacity,
  -- and each identifier is in one place only and below the counter; the capacity is the number of
  -- cells, at most 2 ^ 63.
  pub new_chrpc_server-Reach :
      (server : Server S C) (sys : System S C)
      → length cells ≡ attrs.max_connections
      → attrs.max_connections ≤ 2 ^ 63
      → new_chrpc_server true ss attrs eps cells ≡ (success, some server)
      → Reach impl record { server = server; turns = [] } sys
      → (xs : List (QueueEle C)) × SystemOk sys xs
  new_chrpc_server-Reach server sys len small e r =
      Reach-SystemOk impl r
        (NewServer-SystemOk (new_chrpc_server-NewServer ss attrs eps cells server len small e))

  -- After any interleaving of workers and callers from a new server, a worker that puts its
  -- channel back finds room in the queue; the capacity is the number of cells, at most 2 ^ 63.
  pub push_back_finds_room :
      (server later : Server S C) (before after : List (Turn C)) (ele : QueueEle C)
      → length cells ≡ attrs.max_connections
      → attrs.max_connections ≤ 2 ^ 63
      → new_chrpc_server true ss attrs eps cells ≡ (success, some server)
      → Reach impl
          record { server = server; turns = [] }
          record { server = later; turns = before ++ served (false, ele) ∷ after }
      → (q_push later.queue (some ele)).0 ≡ 0
  push_back_finds_room server later before after ele len small e r =
      let (xs, ok) = new_chrpc_server-Reach server _ len small e r in
      let split = length-append before (served (false, ele) ∷ after) in
      (pushed ele ok.models (omega (arith, ok.counted, ok.bounded))).0

  -- When no worker holds a channel, after any interleaving from a new server, the loop that
  -- deletes a server ends, deletes the channels of the queue in order, and they are as many as are
  -- counted; the capacity is the number of cells, at most 2 ^ 63.
  pub delete_chrpc_server-Reach :
      (server later : Server S C)
      → length cells ≡ attrs.max_connections
      → attrs.max_connections ≤ 2 ^ 63
      → new_chrpc_server true ss attrs eps cells ≡ (success, some server)
      → Reach impl record { server = server; turns = [] } record { server = later; turns = [] }
      → (xs : List (QueueEle C)) × Models later.queue xs
        × (delete_chrpc_server later ≡ some (map (λ x. x.chn) xs))
        × (later.num_channels ≡ length xs)
  unfolding delete_chrpc_server
  delete_chrpc_server-Reach server later len small e r =
      let (xs, ok) = new_chrpc_server-Reach server _ len small e r in
      let n : later.queue.len ≡ length xs = sym ok.models.count in
      (
        xs,
        ok.models,
        ap (λ k. drain_channels (suc k) later.queue) n ∙ drain_channels-eq xs ok.models,
        omega (arith, ok.counted),
      )
