-- ===== src/Chrpc/ChannelFd/Frames.antt =====
-- A frame that `chn_fd_send` writes, at the automaton of a receiver.
use chlibs.Common.{
  mod-eq_of_lt, lt→ltb, ◌%◌, ℕ, ◌+◌, ◌^◌, ◌≤◌, ◌<◌, ◌≡◌, refl, ◌∙◌, ap, subst, false, some, List,
  [], ◌∷◌, ◌++◌, arith, length, take, length-take, take-length_append, ltb, ◌==◌, ◌||◌, eq→==,
  ne→not-==,
}
use chlibs.Chrpc.Channel.{chn_success}
use chlibs.Chrpc.ChannelFd.{
  ChannelFd, start_magic, end_magic, header_size, msg_size_of, u32_bytes, frame, msg_length,
  enqueue, complete, chn_fd_send,
}
use chlibs.Chrpc.ChannelFd.Bytes.{msg_length-u32_bytes}
use chlibs.Chrpc.ChannelFd.Feed.{feed, feed_all, with, feed_end, feed_all-header, feed_all-data}

-- A message of a legal size that is written whole: what `write` is given, and no change.
pub chn_fd_send-frame :
    (c : ChannelFd) (msg : List ℕ) (len fd : ℕ)
    → 0 < len
    → len ≤ c.cfg.max_msg_size
    → c.write_fd ≡ some fd
    → msg_size_of len < 2 ^ 31
    → chn_fd_send c msg len (some (msg_size_of len)) ≡ (chn_success, frame msg len, c)
unfolding chn_fd_send
chn_fd_send-frame c msg len fd pos le e small =
    let legal : (len == 0 || ltb c.cfg.max_msg_size len) ≡ false = ground arith in
    let same : msg_size_of len % 2 ^ 32 ≡ msg_size_of len = mod-eq_of_lt (omega arith) in
    simp (
      legal,
      e,
      same,
      lt→ltb (msg_size_of len) (2 ^ 31) small,
      eq→== (msg_size_of len) (msg_size_of len) refl,
    )

-- The buffer of a receiver after the header and the data of a frame.
abbrev filled : List ℕ → ℕ → List ℕ
filled msg len = (start_magic ∷ u32_bytes len) ++ take len msg

module _ (c : ChannelFd) (msg : List ℕ) (len : ℕ) where
  filled-length :
      len ≤ length msg
      → len < 2 ^ 32
      → (length (filled msg len) ≡ header_size + len) × (msg_length (filled msg len) ≡ len)
  unfolding u32_bytes
  filled-length h small = (
    omega (arith, length-take len msg),
    msg_length-u32_bytes start_magic len (take len msg) small,
  )

  -- The end of the frame.
  feed-end_magic :
      len ≤ length msg
      → len < 2 ^ 32
      → 0 < len
      → len ≤ c.cfg.max_msg_size
      → feed (with c (filled msg len)) end_magic
        ≡ enqueue (with c []) (record { msg_size = len; msg_buf = take len msg })
  unfolding complete u32_bytes
  feed-end_magic h small pos le =
      let (e, e') = filled-length h small in
      let step = feed_end c (filled msg len) end_magic (omega arith) (omega arith) in
      let whole = take-length_append (take len msg) (end_magic ∷ []) in
      let n : length (take len msg) ≡ len = omega (arith, length-take len msg) in
      step
      ∙ ap (λ t. complete (with c []) (filled msg len ++ (end_magic ∷ [])) t) e'
      ∙ rw (ne→not-== len 0 (omega arith)) (
          ap (λ t. enqueue (with c []) (record { msg_size = len; msg_buf = t }))
            (subst (λ t. take t (take len msg ++ (end_magic ∷ [])) ≡ take len msg) n whole))

  -- A frame of a legal message, at a receiver that is not within a message, queues the message.
  pub feed_all-frame :
      len ≤ length msg
      → len < 2 ^ 32
      → 0 < len
      → len ≤ c.cfg.max_msg_size
      → feed_all (with c []) (frame msg len)
        ≡ enqueue (with c []) (record { msg_size = len; msg_buf = take len msg })
  unfolding frame feed_all feed
  feed_all-frame h small pos le =
      let n : length (take len msg) ≡ len = omega (arith, length-take len msg) in
      let e : msg_length (start_magic ∷ u32_bytes len) ≡ len =
        msg_length-u32_bytes start_magic len [] small in
      feed_all-header c (start_magic ∷ []) (u32_bytes len) (take len msg ++ (end_magic ∷ []))
        (omega arith) (omega arith)
      ∙ feed_all-data c (start_magic ∷ u32_bytes len) (take len msg) (end_magic ∷ []) (omega arith)
          (omega arith) (omega arith)
      ∙ feed-end_magic h small pos le
