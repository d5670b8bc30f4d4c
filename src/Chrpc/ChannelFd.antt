-- ===== src/Chrpc/ChannelFd.antt =====
-- The channel over file descriptors: chrpc/include/chrpc/channel_fd.h and
-- chrpc/src/channel_fd.c. A negative descriptor is `none`. The first `msg_buf_fill` bytes of
-- `msg_buf` are the list `msg_buf`, so `msg_buf_fill` is its length, an append is a copy behind
-- them, and the empty list is `msg_buf_fill = 0`. `read_chunk` from `read_chunk_pos` up to
-- `readden` is the list of bytes that are left of the chunk. A uint32_t stands in memory with its
-- low byte first, as on the machines that the library is built for. What `read` and `write` return
-- is an argument.
pub mod Bytes
pub mod Feed
pub mod Rounds
pub mod Chunks
pub mod Frames
pub mod Holds
pub mod Lifetime
pub mod Arrivals
mod Tests
use chlibs.Common.{
  ℕ, zero, suc, ◌+◌, ◌-◌, ◌*◌, ◌/◌, ◌%◌, ◌^◌, Bool, true, false, ◌||◌, Option, none, some, List, [],
  ◌∷◌, ◌++◌, length, take, drop, min, ltb, leb, ◌==◌, if◌then◌else◌,
}
use chlibs.Chutil.Queue.{Queue, new_queue, q_cap, q_len, q_push, q_poll, q_peek}
use chlibs.Chrpc.ChannelLocal.{drain}
use chlibs.Chrpc.Channel.{
  Status, chn_success, chn_invalid_args, chn_buffer_too_small, chn_invalid_msg_size,
  chn_no_incoming_msg, chn_unknown_error, chn_cannot_read, chn_cannot_write, ChannelMsg,
}

abbrev pub start_magic : ℕ
start_magic = 0x1e

abbrev pub end_magic : ℕ
end_magic = 0x2a

-- `sizeof(uint8_t) + sizeof(uint32_t)`
abbrev pub header_size : ℕ
header_size = 5

abbrev pub msg_size_of : ℕ → ℕ
msg_size_of len = header_size + len + 1

pub record ChannelFdConfig : Type 0 where
  pub queue_depth : ℕ
  pub write_fd : Option ℕ
  pub read_fd : Option ℕ
  pub write_over : Bool
  pub max_msg_size : ℕ
  pub read_chunk_size : ℕ

pub record ChannelFd : Type 0 where
  pub cfg : ChannelFdConfig
  pub read_fd : Option ℕ
  pub write_fd : Option ℕ
  pub msg_buf : List ℕ
  pub q : Queue ChannelMsg

-- What the system calls of the constructor return: the mutex, `dup`, and the flags.
pub record Setup : Type 0 where
  pub mutex_failed : Bool
  pub duplicate : Option ℕ
  pub setup_failed : Bool

-- The descriptor that the channel reads, or the failure of `dup`.
abbrev pub choose_read_fd : ChannelFdConfig → Setup → Option ℕ
choose_read_fd cfg env = elim cfg.read_fd [ none ↦ env.duplicate | some fd ↦ some fd ]

unfoldable pub new_channel_fd :
    Option ChannelFdConfig → Setup → List ChannelMsg → Status × Option ChannelFd
new_channel_fd none env table = (chn_invalid_args, none)
new_channel_fd (some cfg) env table =
    let no_write = elim cfg.write_fd as (λ _. Bool) [ none ↦ true | some fd ↦ false ] in
    if cfg.max_msg_size == 0 || cfg.queue_depth == 0 || no_write || cfg.read_chunk_size == 0
    then (chn_invalid_args, none)
    else if env.mutex_failed
    then (chn_unknown_error, none)
    else elim (choose_read_fd cfg env) [
      | none ↦ (chn_unknown_error, none)
      | some fd ↦
          if env.setup_failed
          then (chn_unknown_error, none)
          else elim (new_queue cfg.queue_depth 16 table) [
            | none ↦ (chn_success, none)
            | some q ↦ (
              chn_success,
              some (record {
                cfg = cfg;
                read_fd = some fd;
                write_fd = cfg.write_fd;
                msg_buf = [];
                q = q;
              }),
            )
          ]
    ]

unfoldable pub chn_fd_max_msg_size : ChannelFd → Status × ℕ
chn_fd_max_msg_size c = (chn_success, c.cfg.max_msg_size)

-- the bytes of a uint32_t that is stored into memory
unfoldable pub u32_bytes : ℕ → List ℕ
u32_bytes n = n % 256 ∷ n / 256 % 256 ∷ n / 65536 % 256 ∷ n / 16777216 % 256 ∷ []

-- the contents of `write_buf` up to the size of the message
unfoldable pub frame : List ℕ → ℕ → List ℕ
unfolding u32_bytes
frame msg len = start_magic ∷ (u32_bytes len ++ (take len msg ++ (end_magic ∷ [])))

-- An int of 32 bits that a number is stored in; `none` is a negative one.
abbrev pub int_of : ℕ → Option ℕ
int_of n = if ltb (n % 2 ^ 32) (2 ^ 31) then some (n % 2 ^ 32) else none

abbrev pub written_int : Option ℕ → Option ℕ
written_int none = none
written_int (some n) = int_of n

-- `written` is what `write` returned, `none` if negative, which the code stores in an int. The list
-- is what `write` was given.
unfoldable pub chn_fd_send :
    ChannelFd → List ℕ → ℕ → (written : Option ℕ) → Status × List ℕ × ChannelFd
unfolding frame
chn_fd_send c msg len written =
    if len == 0 || ltb c.cfg.max_msg_size len
    then (chn_invalid_msg_size, [], c)
    else elim c.write_fd [
      | none ↦ (chn_cannot_write, [], c)
      | some fd ↦ elim (written_int written) [
        | none ↦ (chn_cannot_write, frame msg len, record c { write_fd = none })
        | some n ↦
            if n == msg_size_of len
            then (chn_success, frame msg len, c)
            else (chn_cannot_write, frame msg len, record c { write_fd = none })
      ]
    ]

-- the uint32_t behind the first byte of `msg_buf`
unfoldable pub msg_length : List ℕ → ℕ
msg_length (m ∷ a ∷ b ∷ c ∷ d ∷ rest) = a + 256 * b + 65536 * c + 16777216 * d
msg_length _ = 0

-- the search for the starting magic value
unfoldable pub find_start : List ℕ → List ℕ × List ℕ
find_start [] = ([], [])
find_start (b ∷ rest) = if b == start_magic then (start_magic ∷ [], rest) else find_start rest

-- A complete message goes into the queue, by the rule for a full queue.
unfoldable pub enqueue : ChannelFd → ChannelMsg → ChannelFd
enqueue c m =
    if q_len c.q == q_cap c.q
    then if c.cfg.write_over then record c { q = (q_push (q_poll c.q true).2 (some m)).1 } else c
    else record c { q = (q_push c.q (some m)).1 }

-- What follows the complete message `buf` of `len` bytes of data: the buffer is cleared, and a
-- message that is not empty is queued.
unfoldable pub complete : ChannelFd → List ℕ → ℕ → ChannelFd
unfolding enqueue
complete c buf len =
    let d = record c { msg_buf = [] } in
    if len == 0
    then d
    else enqueue d (record { msg_size = len; msg_buf = take len (drop header_size buf) })

-- `buf` holds a header and its data, and the chunk goes on with `b`.
unfoldable pub read_end : ChannelFd → List ℕ → ℕ → List ℕ → ChannelFd × List ℕ
unfolding complete
read_end c buf len [] = (record c { msg_buf = buf }, [])
read_end c buf len (b ∷ rest) =
    if ltb (length buf) (msg_size_of len)
    then if b == end_magic
      then (complete c (buf ++ (end_magic ∷ [])) len, rest)
      else (record c { msg_buf = [] }, rest)
    else (complete c buf len, b ∷ rest)

-- `buf` holds a header.
unfoldable pub read_data : ChannelFd → List ℕ → List ℕ → ChannelFd × List ℕ
unfolding read_end msg_length
read_data c buf [] = (record c { msg_buf = buf }, [])
read_data c buf (b ∷ rest) =
    let len = msg_length buf in
    let needed = header_size + len - length buf in
    if ltb c.cfg.max_msg_size len
    then (record c { msg_buf = [] }, b ∷ rest)
    else read_end c (buf ++ take needed (b ∷ rest)) len (drop needed (b ∷ rest))

-- `buf` holds at least the starting magic value.
unfoldable pub read_header : ChannelFd → List ℕ → List ℕ → ChannelFd × List ℕ
unfolding read_data
read_header c buf [] = (record c { msg_buf = buf }, [])
read_header c buf (b ∷ rest) =
    let needed = header_size - length buf in
    read_data c (buf ++ take needed (b ∷ rest)) (drop needed (b ∷ rest))

-- The bytes that are left stand for the new value of `read_chunk_pos`.
unfoldable pub process_single_msg : ChannelFd → List ℕ → ChannelFd × List ℕ
unfolding read_header find_start
process_single_msg c [] = (c, [])
process_single_msg c (b ∷ rest) =
    if length c.msg_buf == 0
    then (let (buf, left) = find_start (b ∷ rest) in read_header c buf left)
    else read_header c c.msg_buf (b ∷ rest)

-- The loop over a chunk. A round that consumes no byte clears the buffer, so twice the number of
-- bytes and two more rounds are enough.
unfoldable pub process_chunk : ℕ → ChannelFd → List ℕ → Option ChannelFd
unfolding process_single_msg
process_chunk zero c left = none
process_chunk (suc fuel) c [] = some c
process_chunk (suc fuel) c (b ∷ rest) =
    let (d, left) = process_single_msg c (b ∷ rest) in process_chunk fuel d left

-- What `read` returns.
pub data ReadResult : Type 0 where
  got : List ℕ → ReadResult
  eof : ReadResult
  would_block : ReadResult
  read_error : ReadResult

abbrev pub chunk_fuel : List ℕ → ℕ
chunk_fuel chunk = 2 * length chunk + 2

abbrev pub then_loop : {A : Type 0} → Option ChannelFd → (ChannelFd → Option A) → Option A
then_loop none k = none
then_loop (some c) k = k c

-- The loop of `read` calls; `none` if a chunk ran out of fuel. At the end of the list of results
-- the descriptor would block.
unfoldable pub read_loop : ChannelFd → List ReadResult → Option ChannelFd
unfolding process_chunk
read_loop c [] = some c
read_loop c (got chunk ∷ reads) =
    then_loop (process_chunk (chunk_fuel chunk) c chunk) (λ d. read_loop d reads)
read_loop c (eof ∷ reads) = some (record c { read_fd = none })
read_loop c (would_block ∷ reads) = some c
read_loop c (read_error ∷ reads) = some (record c { read_fd = none })

unfoldable pub chn_fd_refresh : ChannelFd → List ReadResult → Option (Status × ChannelFd)
unfolding read_loop
chn_fd_refresh c reads = elim c.read_fd [
  | none ↦ some (chn_success, c)
  | some fd ↦ then_loop (read_loop c reads) (λ d. some (chn_success, d))
]

abbrev pub empty_status : ChannelFd → Status
empty_status c = elim c.read_fd [ none ↦ chn_cannot_read | some fd ↦ chn_no_incoming_msg ]

unfoldable pub chn_fd_incoming_len : ChannelFd → Status × Option ℕ
chn_fd_incoming_len c =
    if q_len c.q == 0
    then (empty_status c, none)
    else elim (q_peek c.q) [ none ↦ (chn_success, none) | some m ↦ (chn_success, some m.msg_size) ]

unfoldable pub chn_fd_receive : ChannelFd → ℕ → Status × Option (List ℕ × ℕ) × ChannelFd
chn_fd_receive c len = if q_len c.q == 0 then (empty_status c, none, c) else elim (q_peek c.q) [
  | none ↦ (chn_success, none, c)
  | some m ↦
      if ltb len m.msg_size
      then (chn_buffer_too_small, none, c)
      else let (st, out, q) = q_poll c.q true in
        elim out [
          | none ↦ (chn_success, none, record c { q = q })
          | some lm ↦
              (chn_success, some (take lm.msg_size lm.msg_buf, lm.msg_size), record c { q = q })
        ]
]

-- the descriptor of a call of `close`, if it is open
abbrev pub opened : Option ℕ → List ℕ
opened none = []
opened (some fd) = fd ∷ []

-- The status, the descriptors that are closed and the buffers of messages that are freed, in order.
unfoldable pub delete_channel_fd : ChannelFd → Status × List ℕ × List (Option ChannelMsg)
delete_channel_fd c =
    (chn_success, opened c.read_fd ++ opened c.write_fd, drain (suc (q_len c.q)) c.q)
