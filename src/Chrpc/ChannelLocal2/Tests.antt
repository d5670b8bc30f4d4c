-- ===== src/Chrpc/ChannelLocal2/Tests.antt =====
-- Runs of the two endpoints and instances of their theorems.
use chlibs.Common.{
  ℕ, zero, suc, ◌≤◌, ◌+◌, ◌%◌, get_elem?, ◌≡◌, refl, true, false, List, [], ◌∷◌, map, arith,
}
use chlibs.Chrpc.Channel.{ChannelMsg}
use chlibs.Chrpc.Channel.Mailbox.{stored}
use chlibs.Chrpc.Channel.Clients.{send, incoming_len, receive}
use chlibs.Chrpc.ChannelLocal.{ChannelLocal, ChannelLocalConfig}
use chlibs.Chrpc.ChannelLocal.Holds.{limits}
use chlibs.Chrpc.ChannelLocal2.{ChannelLocal2Core, channel_local2_impl}
use chlibs.Chrpc.ChannelLocal2.Endpoints.{
  EndCall, AllBacked2, run_ends, Pair, pair_impl, Holds2, run_ends-pair,
}

abbrev cfg : ChannelLocalConfig
cfg = record { queue_depth = 1; write_over = false; max_msg_size = 3 }

-- a channel that holds one message, and one that holds none
abbrev one : ChannelLocal
one = record {
  cfg = cfg;
  queue = record { cap = 1; len = 1; cell_size = 16; i = 0; table = stored (6 ∷ 7 ∷ []) ∷ [] };
}

abbrev zero_msgs : ChannelLocal
zero_msgs = record {
  cfg = cfg;
  queue = record { cap = 1; len = 0; cell_size = 16; i = 0; table = stored [] ∷ [] };
}

abbrev core : ChannelLocal2Core
core = record { a2b = one; b2a = zero_msgs }

abbrev pair : Pair
pair = record { to_b = (6 ∷ 7 ∷ []) ∷ []; to_a = [] }

core-Holds2 : Holds2 (limits cfg) core pair
core-Holds2 = record {
  a2b = record {
    over = refl;
    largest = refl;
    depth = refl;
    queued = record {
      storage = refl;
      small = omega arith;
      index = omega arith;
      count = refl;
      room = omega arith;
      cells = at;
    };
    sized = (omega arith, omega arith, tt);
  };
  b2a = record {
    over = refl;
    largest = refl;
    depth = refl;
    queued = record {
      storage = refl;
      small = omega arith;
      index = omega arith;
      count = refl;
      room = omega arith;
      cells = λ k h. absurd (omega arith);
    };
    sized = tt;
  };
}
  where
    at :
        (k : ℕ)
        → suc k ≤ 1
        → get_elem? {A = ChannelMsg} (stored (6 ∷ 7 ∷ []) ∷ []) ((0 + k) % 1)
          ≡ get_elem? (map stored pair.to_b) k
    at zero h = refl
    at (suc k) h = absurd (omega arith)

-- a is refused, b answers, a receives the answer, and each mailbox is empty
abbrev script : List EndCall
script =
    (true, send (1 ∷ []) 1)
    ∷ (false, receive 3)
    ∷ (false, send (9 ∷ 8 ∷ []) 2)
    ∷ (true, incoming_len)
    ∷ (true, receive 2)
    ∷ (false, receive 3)
    ∷ (true, receive 3)
    ∷ []

script-AllBacked2 : AllBacked2 script
script-AllBacked2 = (omega arith, (omega arith, tt))

run_ends-pair_example :
    run_ends channel_local2_impl core script ≡ run_ends (pair_impl (limits cfg)) pair script
run_ends-pair_example = run_ends-pair (limits cfg) script core pair core-Holds2 script-AllBacked2
