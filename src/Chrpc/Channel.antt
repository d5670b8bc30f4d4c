-- ===== src/Chrpc/Channel.antt =====
-- The channel interface: chrpc/include/chrpc/channel.h and chrpc/src/channel.c. An implementation
-- is a record of functions over its own state; a message is the list of its bytes. A pointer that
-- may be NULL is an option, and a pointer to a result is the Boolean "it is not NULL".
pub mod Mailbox
pub mod Clients
use chlibs.Common.{ℕ, Bool, true, false, Option, none, some, List}

pub data Status : Type 0 where
  chn_success : Status
  chn_invalid_args : Status
  chn_buffer_too_small : Status
  chn_invalid_msg_size : Status
  chn_no_incoming_msg : Status
  chn_mem_error : Status
  chn_channel_full : Status
  chn_unknown_error : Status
  chn_cannot_write : Status
  chn_cannot_read : Status
  chn_closed : Status

pub record ChannelMsg : Type 0 where
  pub msg_size : ℕ
  pub msg_buf : List ℕ

-- `receive` gives the bytes that it copies into the buffer and the number that it stores in
-- `*readden`; `none` where it stores nothing.
pub record ChannelImpl (C : Type 0) : Type 0 where
  pub max_msg_size : C → Status × ℕ
  pub send : C → List ℕ → ℕ → Status × C
  pub refresh : C → Status × C
  pub incoming_len : C → Status × Option ℕ
  pub receive : C → ℕ → Status × Option (List ℕ × ℕ) × C

module _ {C : Type 0} where
  -- `constructed` is what the implementation's constructor returned; `chn` says that the pointer
  -- for the result is not NULL.
  unfoldable pub new_channel :
      Option (ChannelImpl C) → Bool → Status × Option C → Status × Option (ChannelImpl C × C)
  new_channel none chn constructed = (chn_invalid_args, none)
  new_channel (some impl) false constructed = (chn_invalid_args, none)
  new_channel (some impl) true (chn_success, none) = (chn_success, none)
  new_channel (some impl) true (chn_success, some c) = (chn_success, some (impl, c))
  new_channel (some impl) true (st, c) = (st, none)

module _ {C : Type 0} (impl : ChannelImpl C) where
  unfoldable pub chn_max_msg_size : Option C → Bool → Status × Option ℕ
  chn_max_msg_size none mms = (chn_invalid_args, none)
  chn_max_msg_size (some c) false = (chn_invalid_args, none)
  chn_max_msg_size (some c) true = let (st, n) = impl.max_msg_size c in (st, some n)

  unfoldable pub chn_send : Option C → Option (List ℕ) → ℕ → Status × Option C
  chn_send none msg len = (chn_invalid_args, none)
  chn_send (some c) none len = (chn_invalid_args, some c)
  chn_send (some c) (some msg) len = let (st, d) = impl.send c msg len in (st, some d)

  unfoldable pub chn_refresh : Option C → Status × Option C
  chn_refresh none = (chn_invalid_args, none)
  chn_refresh (some c) = let (st, d) = impl.refresh c in (st, some d)

  unfoldable pub chn_incoming_len : Option C → Bool → Status × Option ℕ
  chn_incoming_len none len = (chn_invalid_args, none)
  chn_incoming_len (some c) false = (chn_invalid_args, none)
  chn_incoming_len (some c) true = impl.incoming_len c

  unfoldable pub chn_receive :
      Option C → (buf : Bool) → ℕ → (readden : Bool) → Status × Option (List ℕ × ℕ) × Option C
  chn_receive none buf len readden = (chn_invalid_args, none, none)
  chn_receive (some c) false len readden = (chn_invalid_args, none, some c)
  chn_receive (some c) true len false = (chn_invalid_args, none, some c)
  chn_receive (some c) true len true = let (st, out, d) = impl.receive c len in (st, out, some d)
