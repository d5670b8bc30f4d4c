-- ===== src/Chrpc/ChannelEcho/Tests.antt =====
-- The echo thread over a local channel.
use chlibs.Common.{
  ℕ, zero, suc, ◌+◌, ◌%◌, ◌≤◌, ◌≡◌, refl, true, false, some, List, [], ◌∷◌, ◌++◌, map, replicate,
  get_elem?, arith,
}
use chlibs.Chrpc.Channel.{chn_success, ChannelMsg}
use chlibs.Chrpc.Channel.Mailbox.{stored}
use chlibs.Chrpc.ChannelLocal.{ChannelLocal, ChannelLocalConfig, channel_local_impl}
use chlibs.Chrpc.ChannelLocal.Holds.{limits, Holds, channel_local_laws}
use chlibs.Chrpc.ChannelEcho.{echo_thread}
use chlibs.Chrpc.ChannelEcho.Rotates.{rotate, echo_thread-rotate}

abbrev cfg : ChannelLocalConfig
cfg = record { queue_depth = 2; write_over = false; max_msg_size = 3 }

abbrev chan : ChannelLocal
chan = record {
  cfg = cfg;
  queue = record {
    cap = 2;
    len = 2;
    cell_size = 16;
    i = 0;
    table = stored (4 ∷ 5 ∷ []) ∷ stored (7 ∷ []) ∷ [];
  };
}

abbrev held : List (List ℕ)
held = (4 ∷ 5 ∷ []) ∷ (7 ∷ []) ∷ []

chan-Holds : Holds (limits cfg) chan held
chan-Holds = record {
  over = refl;
  largest = refl;
  depth = refl;
  queued = record {
    storage = refl;
    small = omega arith;
    index = omega arith;
    count = refl;
    room = omega arith;
    cells = at;
  };
  sized = (omega arith, omega arith, (omega arith, omega arith, tt));
}
  where
    at :
        (k : ℕ)
        → suc k ≤ 2
        → get_elem? {A = ChannelMsg} (stored (4 ∷ 5 ∷ []) ∷ stored (7 ∷ []) ∷ []) ((0 + k) % 2)
          ≡ get_elem? (map stored held) k
    at zero h = refl
    at (suc zero) h = refl
    at (suc (suc k)) h = absurd (omega arith)

echo_thread-rotate_example :
    (d : ChannelLocal) × (echo_thread channel_local_impl (replicate 3 false ++ (true ∷ [])) chan
      ≡ (some chn_success, d))
    × Holds (limits cfg) d (rotate 3 held)
unfolding channel_local_laws
echo_thread-rotate_example =
    echo_thread-rotate (channel_local_laws (limits cfg)) 3 chan held chan-Holds (omega arith)
