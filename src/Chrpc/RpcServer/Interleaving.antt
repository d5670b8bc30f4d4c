-- ===== src/Chrpc/RpcServer/Interleaving.antt =====
-- Several workers and the callers of `chrpc_server_give_channel`: each critical section and each
-- serving of a channel is a step, and the steps of different workers interleave.
use chlibs.Common.{ℕ, ◌≡◌, Bool, false, Option, some, List, ◌∷◌, ◌++◌}
use chlibs.Chrpc.Channel.{ChannelImpl}
use chlibs.Chrpc.RpcServer.{QueueEle, Server}
use chlibs.Chrpc.RpcServer.Serving.{
  chrpc_server_give_channel, worker_poll, worker_serve, worker_return,
}

-- A worker that has polled a channel, and one that has served it.
pub data Turn (C : Type 0) : Type 0 where
  polled : QueueEle C → Turn C
  served : Bool × QueueEle C → Turn C

pub record System (S C : Type 0) : Type 0 where
  pub server : Server S C
  pub turns : List (Turn C)

module _ {S C : Type 0} (impl : ChannelImpl C) where
  pub data Step : System S C → System S C → Type 0 where
    gives :
        (server : Server S C) (turns : List (Turn C)) (chn : Option C) (now : ℕ)
        → Step
            record { server = server; turns = turns }
            record { server = (chrpc_server_give_channel impl server chn now).1; turns = turns }
    polls :
        (server server' : Server S C) (turns : List (Turn C)) (ele : QueueEle C)
        → server.should_exit ≡ false
        → worker_poll server ≡ (some ele, server')
        → Step
            record { server = server; turns = turns }
            record { server = server'; turns = polled ele ∷ turns }
    serves :
        (server : Server S C) (before after : List (Turn C)) (ele : QueueEle C) (now : ℕ)
        → Step
            record { server = server; turns = before ++ polled ele ∷ after }
            record {
              server = (worker_serve impl ele now server).1;
              turns = before ++ served (worker_serve impl ele now server).0 ∷ after;
            }
    returns :
        (server : Server S C) (before after : List (Turn C)) (verdict : Bool × QueueEle C)
        → Step
            record { server = server; turns = before ++ served verdict ∷ after }
            record { server = worker_return verdict server; turns = before ++ after }

  pub data Reach : System S C → System S C → Type 0 where
    here : {a : System S C} → Reach a a
    there : {a b c : System S C} → Reach a b → Step b c → Reach a c
