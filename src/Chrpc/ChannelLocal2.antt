-- ===== src/Chrpc/ChannelLocal2.antt =====
-- The channel within one process with two endpoints: chrpc/include/chrpc/channel_local2.h and
-- chrpc/src/channel_local2.c. The two endpoints share the core, so the state that a call is given
-- and leaves is the core, and an endpoint is its direction.
pub mod Endpoints
mod Tests
use chlibs.Common.{ℕ, Bool, true, false, Option, none, some, List, [], ◌++◌, if◌then◌else◌}
use chlibs.Chrpc.Channel.{Status, chn_success, chn_invalid_args, ChannelMsg, ChannelImpl}
use chlibs.Chrpc.ChannelLocal.{
  ChannelLocal, ChannelLocalConfig, new_channel_local, delete_channel_local, chn_l_max_msg_size,
  chn_l_send, chn_l_refresh, chn_l_incoming_len, chn_l_receive,
}

pub record ChannelLocal2Core : Type 0 where
  pub a2b : ChannelLocal
  pub b2a : ChannelLocal

-- The Booleans are the failures of the two mutexes, the lists what malloc gave for the queues. Of a
-- first channel that succeeded the core keeps the pointer.
unfoldable pub new_channel_local2_core :
    Option ChannelLocalConfig
    → (a2b_failed b2a_failed : Bool) (a2b_table b2a_table : List ChannelMsg)
    → Status × Option ChannelLocal2Core
new_channel_local2_core none a2b_failed b2a_failed a2b_table b2a_table = (chn_invalid_args, none)
new_channel_local2_core (some cfg) a2b_failed b2a_failed a2b_table b2a_table =
    both (new_channel_local (some cfg) a2b_failed a2b_table)
      (new_channel_local (some cfg) b2a_failed b2a_table)
  where
    both :
        Status × Option ChannelLocal
        → Status × Option ChannelLocal
        → Status × Option ChannelLocal2Core
    both (chn_success, some c) (chn_success, some d) =
        (chn_success, some (record { a2b = c; b2a = d }))
    both (chn_success, c) (st, d) = (st, none)
    both (st, c) second = (st, none)

-- The status, and the buffers that are freed, in order.
unfoldable pub delete_channel_local2_core :
    Option ChannelLocal2Core → Status × List (Option ChannelMsg)
delete_channel_local2_core none = (chn_invalid_args, [])
delete_channel_local2_core (some core) =
    let (s1, freed1) = delete_channel_local core.a2b in
    let (s2, freed2) = delete_channel_local core.b2a in (first_failure s1 s2, freed1 ++ freed2)
  where
    first_failure : Status → Status → Status
    first_failure chn_success s2 = s2
    first_failure s1 s2 = s1

-- the channel that an endpoint sends on, and the one that it receives from
abbrev pub outgoing : Bool → ChannelLocal2Core → ChannelLocal
outgoing a2b_direction core = if a2b_direction then core.a2b else core.b2a

abbrev pub incoming : Bool → ChannelLocal2Core → ChannelLocal
incoming a2b_direction core = if a2b_direction then core.b2a else core.a2b

-- the core after the channel was changed in place
abbrev pub set_outgoing : Bool → ChannelLocal2Core → ChannelLocal → ChannelLocal2Core
set_outgoing true core c = record core { a2b = c }
set_outgoing false core c = record core { b2a = c }

abbrev pub set_incoming : Bool → ChannelLocal2Core → ChannelLocal → ChannelLocal2Core
set_incoming true core c = record core { b2a = c }
set_incoming false core c = record core { a2b = c }

unfoldable pub chn_l2_max_msg_size : Bool → ChannelLocal2Core → Status × ℕ
chn_l2_max_msg_size dir core = chn_l_max_msg_size core.a2b

unfoldable pub chn_l2_send : Bool → ChannelLocal2Core → List ℕ → ℕ → Status × ChannelLocal2Core
chn_l2_send dir core msg len =
    let (st, c) = chn_l_send (outgoing dir core) msg len in (st, set_outgoing dir core c)

unfoldable pub chn_l2_refresh : Bool → ChannelLocal2Core → Status × ChannelLocal2Core
chn_l2_refresh dir core =
    let (st, c) = chn_l_refresh (incoming dir core) in (st, set_incoming dir core c)

unfoldable pub chn_l2_incoming_len : Bool → ChannelLocal2Core → Status × Option ℕ
chn_l2_incoming_len dir core = chn_l_incoming_len (incoming dir core)

unfoldable pub chn_l2_receive :
    Bool → ChannelLocal2Core → ℕ → Status × Option (List ℕ × ℕ) × ChannelLocal2Core
chn_l2_receive dir core len =
    let (st, out, c) = chn_l_receive (incoming dir core) len in (st, out, set_incoming dir core c)

-- the implementation at the endpoint of a direction
abbrev pub channel_local2_impl : Bool → ChannelImpl ChannelLocal2Core
channel_local2_impl dir = record {
  max_msg_size = chn_l2_max_msg_size dir;
  send = chn_l2_send dir;
  refresh = chn_l2_refresh dir;
  incoming_len = chn_l2_incoming_len dir;
  receive = chn_l2_receive dir;
}
