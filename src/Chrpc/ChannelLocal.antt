-- ===== src/Chrpc/ChannelLocal.antt =====
-- The channel within one process: chrpc/include/chrpc/channel_local.h and
-- chrpc/src/channel_local.c, over the queue of chutil. Every operation holds the channel's mutex
-- from its first look at the queue to its last, so one call is one step, and the calls of several
-- threads are a sequence of steps.
pub mod Holds
pub mod Lifetime
mod Tests
use chlibs.Common.{
  ℕ, zero, suc, Bool, true, ◌||◌, Option, none, some, List, [], ◌∷◌, take, ◌==◌, ltb, if◌then◌else◌,
}
use chlibs.Chutil.Queue.{Queue, new_queue, q_cap, q_len, q_push, q_poll, q_peek}
use chlibs.Chrpc.Channel.{
  Status, chn_success, chn_invalid_args, chn_buffer_too_small, chn_invalid_msg_size,
  chn_no_incoming_msg, chn_channel_full, chn_unknown_error, ChannelMsg, ChannelImpl,
}

pub record ChannelLocalConfig : Type 0 where
  pub queue_depth : ℕ
  pub write_over : Bool
  pub max_msg_size : ℕ

pub record ChannelLocal : Type 0 where
  pub cfg : ChannelLocalConfig
  pub queue : Queue ChannelMsg

-- `sizeof(channel_msg_t)` on a 64-bit machine
abbrev pub msg_cell_size : ℕ
msg_cell_size = 16

-- `mutex_failed` is the outcome of `pthread_mutex_init`, `table` what malloc gave for the queue.
unfoldable pub new_channel_local :
    Option ChannelLocalConfig
    → (mutex_failed : Bool) → List ChannelMsg
    → Status × Option ChannelLocal
new_channel_local none mutex_failed table = (chn_invalid_args, none)
new_channel_local (some cfg) mutex_failed table =
    if cfg.queue_depth == 0
    then (chn_invalid_args, none)
    else if mutex_failed
    then (chn_unknown_error, none)
    else elim (new_queue cfg.queue_depth msg_cell_size table) [
      | none ↦ (chn_success, none)
      | some q ↦ (chn_success, some (record { cfg = cfg; queue = q }))
    ]

-- The buffers that the loop of `delete_channel_local` frees, in order. The fuel is the number of
-- polls that it may make.
unfoldable pub drain : ℕ → Queue ChannelMsg → List (Option ChannelMsg)
drain zero q = []
drain (suc fuel) q =
    let (st, m, q') = q_poll q true in let rest = drain fuel q' in if st == 0 then m ∷ rest else []

unfoldable pub delete_channel_local : ChannelLocal → Status × List (Option ChannelMsg)
delete_channel_local c = (chn_success, drain (suc (q_len c.queue)) c.queue)

unfoldable pub chn_l_max_msg_size : ChannelLocal → Status × ℕ
chn_l_max_msg_size c = (chn_success, c.cfg.max_msg_size)

-- the message that a send stores: `memcpy` of `len` bytes into a buffer of `len` bytes
abbrev pub local_msg : List ℕ → ℕ → ChannelMsg
local_msg msg len = record { msg_size = len; msg_buf = take len msg }

-- what follows the test for a full queue
unfoldable pub push_msg : ChannelLocal → Queue ChannelMsg → List ℕ → ℕ → Status × ChannelLocal
push_msg c q msg len = (chn_success, record c { queue = (q_push q (some (local_msg msg len))).1 })

unfoldable pub chn_l_send : ChannelLocal → List ℕ → ℕ → Status × ChannelLocal
unfolding push_msg
chn_l_send c msg len =
    if len == 0 || ltb c.cfg.max_msg_size len
    then (chn_invalid_msg_size, c)
    else if q_len c.queue == q_cap c.queue
    then if c.cfg.write_over
      then push_msg c (q_poll c.queue true).2 msg len
      else (chn_channel_full, c)
    else push_msg c c.queue msg len

unfoldable pub chn_l_refresh : ChannelLocal → Status × ChannelLocal
chn_l_refresh c = (chn_success, c)

unfoldable pub chn_l_incoming_len : ChannelLocal → Status × Option ℕ
chn_l_incoming_len c =
    if q_len c.queue == 0 then (chn_no_incoming_msg, none) else elim (q_peek c.queue) [
      | none ↦ (chn_success, none)
      | some m ↦ (chn_success, some m.msg_size)
    ]

-- A NULL from `q_peek` would be dereferenced; it is met only at an empty queue.
unfoldable pub chn_l_receive : ChannelLocal → ℕ → Status × Option (List ℕ × ℕ) × ChannelLocal
chn_l_receive c len =
    if q_len c.queue == 0 then (chn_no_incoming_msg, none, c) else elim (q_peek c.queue) [
      | none ↦ (chn_success, none, c)
      | some m ↦
          if ltb len m.msg_size
          then (chn_buffer_too_small, none, c)
          else let (st, out, q) = q_poll c.queue true in
            elim out [
              | none ↦ (chn_success, none, record c { queue = q })
              | some lm ↦ (
                chn_success,
                some (take lm.msg_size lm.msg_buf, lm.msg_size),
                record c { queue = q },
              )
            ]
    ]

abbrev pub channel_local_impl : ChannelImpl ChannelLocal
channel_local_impl = record {
  max_msg_size = chn_l_max_msg_size;
  send = chn_l_send;
  refresh = chn_l_refresh;
  incoming_len = chn_l_incoming_len;
  receive = chn_l_receive;
}
