-- ===== src/Chrpc/ChannelEcho.antt =====
-- The loop of the echo thread: chrpc/src/channel_helpers.c. The flags are what `chn_et_should_stop`
-- returns at each round; with no flag left the loop is still running. Nobody else calls the channel.
pub mod Rotates
mod Tests
use chlibs.Common.{ℕ, Bool, true, false, Option, none, some, List, [], ◌∷◌, ltb, if◌then◌else◌}
use chlibs.Chrpc.Channel.{
  Status, chn_success, chn_invalid_args, chn_buffer_too_small, chn_invalid_msg_size,
  chn_no_incoming_msg, chn_mem_error, chn_channel_full, chn_unknown_error, chn_cannot_write,
  chn_cannot_read, chn_closed, ChannelImpl,
}

-- What a round does: the loop goes on, or returns a status.
pub data Round (C : Type 0) : Type 0 where
  go_on : C → Round C
  give_up : Status → C → Round C

-- `TRY_CHANNEL_CALL`
abbrev pub try_call : {C : Type 0} → Status → C → Round C → Round C
try_call chn_success c next = next
try_call st c next = give_up st c

module _ {C : Type 0} (impl : ChannelImpl C) where
  -- what follows a successful `chn_incoming_len`
  unfoldable pub echo_msg : ℕ → C → ℕ → Round C
  echo_msg buf_len c len =
      if ltb buf_len len
      then give_up chn_buffer_too_small c
      else (let (st, out, d) = impl.receive c buf_len in
          try_call st d (elim out [
            | none ↦ go_on d
            | some (buf, readden) ↦
                let (st', e) = impl.send d buf readden in try_call st' e (go_on e)
          ]))

  -- what follows a successful `chn_refresh`
  unfoldable pub echo_incoming : ℕ → C → Status × Option ℕ → Round C
  unfolding echo_msg
  echo_incoming buf_len c (chn_no_incoming_msg, len) = go_on c
  echo_incoming buf_len c (chn_success, some len) = echo_msg buf_len c len
  echo_incoming buf_len c (st, len) = give_up st c

  unfoldable pub echo_round : ℕ → C → Round C
  unfolding echo_incoming
  echo_round buf_len c =
      let (st, d) = impl.refresh c in try_call st d (echo_incoming buf_len d (impl.incoming_len d))

  -- The status that the loop returns, if it has, and the channel.
  unfoldable pub echo_loop : ℕ → List Bool → C → Option Status × C
  unfolding echo_round
  echo_loop buf_len [] c = (none, c)
  echo_loop buf_len (true ∷ flags) c = (some chn_success, c)
  echo_loop buf_len (false ∷ flags) c = elim (echo_round buf_len c) [
    | give_up st d ↦ (some st, d)
    | go_on d ↦ echo_loop buf_len flags d
  ]

  -- The thread: the buffer has the largest size of the channel's messages. The status is what is
  -- stored as the final one, and a failure to get the largest size stores none.
  unfoldable pub echo_thread : List Bool → C → Option Status × C
  unfolding echo_loop
  echo_thread flags c =
      let (st, mms) = impl.max_msg_size c in
      elim (try_call st c (go_on c)) [ give_up st' d ↦ (none, d) | go_on d ↦ echo_loop mms flags d ]
