-- ===== src/Chrpc/ChannelFd/Tests.antt =====
-- Runs of a channel over descriptors and instances of its theorems.
use mathlib.Core.List.{flatten}
use chlibs.Common.{
  zero, suc, ◌≤◌, ◌+◌, ◌%◌, get_elem?, ℕ, ◌≡◌, ◌↔◌, refl, false, none, some, List, [], ◌∷◌, map,
  arith,
}
use chlibs.Chutil.Queue.{Queue}
use chlibs.Chrpc.Channel.{chn_success, ChannelMsg}
use chlibs.Chrpc.Channel.Mailbox.{stored, Limits, Mailbox, AgreesOut}
use chlibs.Chrpc.ChannelFd.{
  ChannelFd, ChannelFdConfig, Setup, new_channel_fd, read_loop, got, chn_fd_send, chn_fd_receive,
}
use chlibs.Chrpc.ChannelFd.Feed.{Framing-short, feed_all, with}
use chlibs.Chrpc.ChannelFd.Chunks.{read_loop-feed_all}
use chlibs.Chrpc.ChannelFd.Holds.{Holds, receive_or, nothing_there, chn_fd_receive-Agrees}
use chlibs.Chrpc.ChannelFd.Lifetime.{Opens, limits, new_channel_fd_iff}
use chlibs.Chrpc.ChannelFd.Arrivals.{
  send_all, mailbox_send_all, read_loop-Holds, read_loop-send_all,
}

abbrev cfg : ChannelFdConfig
cfg = record {
  queue_depth = 2;
  write_fd = some 4;
  read_fd = none;
  write_over = false;
  max_msg_size = 3;
  read_chunk_size = 10;
}

abbrev env : Setup
env = record { mutex_failed = false; duplicate = some 5; setup_failed = false }

abbrev q : Queue ChannelMsg
q = record { cap = 2; len = 0; cell_size = 16; i = 0; table = stored [] ∷ stored [] ∷ [] }

abbrev chan : ChannelFd
chan = record { cfg = cfg; read_fd = some 5; write_fd = some 4; msg_buf = []; q = q }

abbrev lim : Limits
lim = record { depth = 2; write_over = false; max_size = 3 }

chan-Holds : Holds lim chan []
chan-Holds = record {
  over = refl;
  largest = refl;
  depth = refl;
  queued = record {
    storage = refl;
    small = omega arith;
    index = omega arith;
    count = refl;
    room = omega arith;
    cells = λ k h. absurd (omega arith);
  };
  sized = tt;
  framed = Framing-short _ _ (omega arith);
}

-- the channel with one message in its queue
abbrev chan_one : ChannelFd
chan_one = record chan {
  q = record { cap = 2; len = 1; cell_size = 16; i = 1; table = stored [] ∷ stored (6 ∷ []) ∷ [] };
}

chan_one-Holds : Holds lim chan_one ((6 ∷ []) ∷ [])
chan_one-Holds = record {
  over = refl;
  largest = refl;
  depth = refl;
  queued = record {
    storage = refl;
    small = omega arith;
    index = omega arith;
    count = refl;
    room = omega arith;
    cells = at;
  };
  sized = (omega arith, omega arith, tt);
  framed = Framing-short _ _ (omega arith);
}
  where
    at :
        (k : ℕ)
        → suc k ≤ 1
        → get_elem? {A = ChannelMsg} (stored [] ∷ stored (6 ∷ []) ∷ []) ((1 + k) % 2)
          ≡ get_elem? (map stored ((6 ∷ []) ∷ [])) k
    at zero h = refl
    at (suc k) h = absurd (omega arith)

-- a frame that is cut twice, behind a byte that starts no frame
abbrev chunks : List (List ℕ)
chunks = (7 ∷ 30 ∷ 2 ∷ []) ∷ (0 ∷ 0 ∷ 0 ∷ 8 ∷ []) ∷ (9 ∷ 42 ∷ []) ∷ []

abbrev msgs : List (List ℕ)
msgs = (8 ∷ 9 ∷ []) ∷ (1 ∷ []) ∷ []

-- the frames of the messages
abbrev piped : List (List ℕ)
piped =
    (30 ∷ 2 ∷ []) ∷ (0 ∷ 0 ∷ 0 ∷ 8 ∷ []) ∷ (9 ∷ 42 ∷ 30 ∷ []) ∷ (1 ∷ 0 ∷ 0 ∷ 0 ∷ 1 ∷ 42 ∷ []) ∷ []

read_loop-feed_all_example : read_loop chan (map got chunks) ≡ some (feed_all chan (flatten chunks))
read_loop-feed_all_example = read_loop-feed_all chan chunks (chan-Holds).framed

read_loop-Holds_example :
    (d : ChannelFd) × (ms' : Mailbox) × (read_loop chan (map got chunks) ≡ some d) × Holds lim d ms'
read_loop-Holds_example = read_loop-Holds lim chan [] chunks chan-Holds

read_loop-send_all_example :
    (d : ChannelFd) × (read_loop (with chan []) (map got piped) ≡ some d)
    × Holds lim d (mailbox_send_all lim [] msgs)
unfolding send_all chn_fd_send flatten
read_loop-send_all_example =
    read_loop-send_all lim chan chan 4 [] msgs piped refl refl (omega arith)
      (omega arith, omega arith, (omega arith, omega arith, tt)) chan-Holds refl

chn_fd_receive-Agrees_example :
    AgreesOut
      (Holds lim)
      (chn_fd_receive chan_one 3)
      (receive_or (nothing_there chan_one.read_fd) ((6 ∷ []) ∷ []) 3)
chn_fd_receive-Agrees_example = chn_fd_receive-Agrees lim chan_one ((6 ∷ []) ∷ []) 3 chan_one-Holds

new_channel_fd_iff_example :
    (((c : ChannelFd) × (new_channel_fd (some cfg) env (stored [] ∷ stored [] ∷ [])
          ≡ (chn_success, some c)))
      ↔ ((wfd : ℕ) × (rfd : ℕ) × Opens cfg env wfd rfd))
    × ((c : ChannelFd) (wfd rfd : ℕ)
        → Opens cfg env wfd rfd
        → new_channel_fd (some cfg) env (stored [] ∷ stored [] ∷ []) ≡ (chn_success, some c)
        → (c.read_fd ≡ some rfd)
          × (c.write_fd ≡ some wfd)
          × (c.msg_buf ≡ [])
          × Holds (limits cfg) c [])
new_channel_fd_iff_example =
    new_channel_fd_iff cfg env (stored [] ∷ stored [] ∷ []) refl (omega arith)

-- The configuration is legal, and the duplicate is read.
env-Opens : Opens cfg env 4 5
env-Opens = record {
  size = omega arith;
  depth = omega arith;
  chunk = omega arith;
  written = refl;
  mutex = refl;
  flags = refl;
  reads = refl;
}
