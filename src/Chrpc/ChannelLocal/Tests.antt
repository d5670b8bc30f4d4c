-- ===== src/Chrpc/ChannelLocal/Tests.antt =====
-- Runs of a local channel and instances of its theorems.
use chlibs.Common.{
  ℕ, zero, suc, ◌≡◌, refl, true, some, List, [], ◌∷◌, map, arith, ◌≤◌, ◌+◌, ◌%◌, get_elem?,
}
use chlibs.Chutil.Queue.{Queue}
use chlibs.Chrpc.Channel.{chn_success, ChannelMsg}
use chlibs.Chrpc.Channel.Mailbox.{stored, mailbox_send, Agrees}
use chlibs.Chrpc.Channel.Clients.{
  Call, send, incoming_len, receive, AllBacked, run_calls, run_mailbox,
}
use chlibs.Chrpc.ChannelLocal.{
  ChannelLocal, ChannelLocalConfig, channel_local_impl, chn_l_send, delete_channel_local,
}
use chlibs.Chrpc.ChannelLocal.Holds.{limits, Holds, chn_l_send-Agrees, run_calls-channel_local}
use chlibs.Chrpc.ChannelLocal.Lifetime.{delete_channel_local-frees}

abbrev cfg : ChannelLocalConfig
cfg = record { queue_depth = 2; write_over = true; max_msg_size = 3 }

-- two stored messages, the first at the end of the table
abbrev q : Queue ChannelMsg
q = record {
  cap = 2;
  len = 2;
  cell_size = 16;
  i = 1;
  table = stored (4 ∷ 5 ∷ []) ∷ stored (7 ∷ []) ∷ [];
}

abbrev chan : ChannelLocal
chan = record { cfg = cfg; queue = q }

abbrev held : List (List ℕ)
held = (7 ∷ []) ∷ (4 ∷ 5 ∷ []) ∷ []

chan-Holds : Holds (limits cfg) chan held
chan-Holds = record {
  over = refl;
  largest = refl;
  depth = refl;
  queued = record {
    storage = refl;
    small = omega arith;
    index = omega arith;
    count = refl;
    room = omega arith;
    cells = at;
  };
  sized = (omega arith, omega arith, (omega arith, omega arith, tt));
}
  where
    at :
        (k : ℕ)
        → suc k ≤ 2
        → get_elem? {A = ChannelMsg} (stored (4 ∷ 5 ∷ []) ∷ stored (7 ∷ []) ∷ []) ((1 + k) % 2)
          ≡ get_elem? (map stored held) k
    at zero h = refl
    at (suc zero) h = refl
    at (suc (suc k)) h = absurd (omega arith)

abbrev script : List Call
script =
    send (1 ∷ 2 ∷ []) 2
    ∷ incoming_len
    ∷ receive 1
    ∷ receive 4
    ∷ send (9 ∷ []) 0
    ∷ receive 4
    ∷ receive 4
    ∷ []

script-AllBacked : AllBacked script
script-AllBacked = (omega arith, (omega arith, tt))

run_calls-channel_local_example :
    run_calls channel_local_impl chan script ≡ run_mailbox (limits cfg) held script
run_calls-channel_local_example =
    run_calls-channel_local (limits cfg) script chan held chan-Holds script-AllBacked

chn_l_send-Agrees_example :
    Agrees
      (Holds (limits cfg))
      (chn_l_send chan (1 ∷ 2 ∷ []) 2)
      (mailbox_send (limits cfg) held (1 ∷ 2 ∷ []) 2)
chn_l_send-Agrees_example =
    chn_l_send-Agrees (limits cfg) chan (1 ∷ 2 ∷ []) 2 held chan-Holds (omega arith)

delete_channel_local-frees_example :
    delete_channel_local chan ≡ (chn_success, map (λ m. some (stored m)) held)
delete_channel_local-frees_example = delete_channel_local-frees chan held chan-Holds
