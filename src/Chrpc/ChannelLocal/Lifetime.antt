-- ===== src/Chrpc/ChannelLocal/Lifetime.antt =====
-- The construction and the destruction of a local channel.
use chlibs.Common.{
  ℕ, zero, suc, ◌≤◌, ◌<◌, ◌≡◌, refl, ap, true, false, some, List, [], ◌∷◌, map, arith, length, ◌^◌,
  ne→not-==,
}
use chlibs.Chutil.Queue.{Queue, q_len, new_queue}
use chlibs.Chutil.Queue.Fifo.{fifo_poll}
use chlibs.Chutil.Queue.Models.{Models, new_queue-Models, q_poll-Models}
use chlibs.Chrpc.Channel.{chn_success, ChannelMsg}
use chlibs.Chrpc.Channel.Mailbox.{stored, length-map-stored, Limits, Mailbox}
use chlibs.Chrpc.ChannelLocal.{
  ChannelLocal, ChannelLocalConfig, drain, delete_channel_local, new_channel_local, msg_cell_size,
}
use chlibs.Chrpc.ChannelLocal.Holds.{Holds, limits}

-- A configuration of a depth from 1 to 2 ^ 63, with a mutex and a queue table of its depth, makes
-- a channel with its limits that holds no message.
pub new_channel_local-Holds :
    (cfg : ChannelLocalConfig) (table : List ChannelMsg)
    → length table ≡ cfg.queue_depth
    → cfg.queue_depth ≤ 2 ^ 63
    → 0 < cfg.queue_depth
    → (c : ChannelLocal) × (new_channel_local (some cfg) false table ≡ (chn_success, some c))
      × Holds (limits cfg) c []
unfolding new_channel_local new_queue
new_channel_local-Holds cfg table h small pos =
    let q : Queue ChannelMsg = record {
      cap = cfg.queue_depth;
      len = 0;
      cell_size = msg_cell_size;
      i = 0;
      table = table;
    } in
    (
      record { cfg = cfg; queue = q },
      rw (ne→not-== cfg.queue_depth 0 (omega arith)) refl,
      record {
        over = refl;
        largest = refl;
        depth = refl;
        queued =
            ((new_queue-Models cfg.queue_depth msg_cell_size table h small).1 q
              (rw (ne→not-== cfg.queue_depth 0 (omega arith)) refl)).0;
        sized = tt;
      },
    )

-- The loop of a destructor frees the buffer of each message of the queue.
pub drain-eq :
    (fuel : ℕ) (q : Queue ChannelMsg) (ms : Mailbox)
    → Models q (map stored ms)
    → length ms < fuel
    → drain fuel q ≡ map (λ m. some (stored m)) ms
unfolding drain fifo_poll
drain-eq zero q ms m h = absurd (omega arith)
drain-eq (suc fuel) q [] m h = let (st, out, m', cap) = q_poll-Models true m in rw st refl
drain-eq (suc fuel) q (x ∷ ms) m h =
    let (st, out, m', cap) = q_poll-Models true m in
    rw (st, out) (ap (λ t. some (stored x) ∷ t) (drain-eq fuel _ ms m' (omega arith)))

-- Destroying a well-formed local channel frees the buffer of each message that it holds, once and
-- in order.
pub delete_channel_local-frees :
    {l : Limits} (c : ChannelLocal) (ms : Mailbox)
    → Holds l c ms
    → delete_channel_local c ≡ (chn_success, map (λ m. some (stored m)) ms)
unfolding delete_channel_local q_len
delete_channel_local-frees c ms v =
    ap (λ t. (chn_success, t))
      (drain-eq (suc c.queue.len) c.queue ms v.queued
        (omega (arith, length-map-stored ms, v.queued.count)))
