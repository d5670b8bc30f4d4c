-- ===== src/Chrpc/ChannelFd/Arrivals.antt =====
-- What comes in over the descriptor: any bytes, and the frames of a sender.
use chlibs.Common.{
  ℕ, ◌+◌, ◌^◌, ◌≤◌, ◌<◌, ◌≡◌, ◌∙◌, ap, some, List, [], ◌∷◌, ◌++◌, map, arith, length, take, drop,
  length-drop, length-append, ltb, ◌==◌, not-==→ne, not-ltb,
}
use mathlib.Core.List.{flatten}
use chlibs.Chrpc.Channel.{ChannelMsg}
use chlibs.Chrpc.Channel.Mailbox.{Limits, Mailbox, mailbox_send, AllSent}
use chlibs.Chrpc.ChannelFd.{
  ChannelFd, header_size, msg_size_of, msg_length, enqueue, complete, end_magic, frame, chn_fd_send,
  read_loop, got,
}
use chlibs.Chrpc.ChannelFd.Feed.{
  feed, feed_all, feed_all-append, with, Framing, Framing-short, feed-Framing,
}
use chlibs.Chrpc.ChannelFd.Chunks.{read_loop-feed_all}
use chlibs.Chrpc.ChannelFd.Frames.{chn_fd_send-frame, feed_all-frame}
use chlibs.Chrpc.ChannelFd.Holds.{Holds, Holds-with, enqueue-Holds, if-elim, sized_msg}

-- A message that is complete, with the length that its header says, is queued or dropped.
complete-Holds :
    (l : Limits) (c : ChannelFd) (ms : Mailbox) (buf : List ℕ)
    → Holds l c ms
    → msg_length buf ≤ c.cfg.max_msg_size
    → header_size + msg_length buf ≤ length buf
    → (ms' : Mailbox) × Holds l (complete c (buf ++ (end_magic ∷ [])) (msg_length buf)) ms'
unfolding complete
complete-Holds l c ms buf v small le =
    let cleared = Holds-with l c ms [] v (Framing-short _ _ (omega arith)) in
    let whole = buf ++ (end_magic ∷ []) in
    if-elim (λ d. (ms' : Mailbox) × Holds l d ms') (msg_length buf == 0) _ _ (λ e. (ms, cleared))
      (λ ne. (
        _,
        enqueue-Holds l (with c []) ms (drop header_size whole) (msg_length buf) cleared
            (omega (arith, not-==→ne _ _ ne)) (omega (arith, v.largest))
            (omega (arith, length-drop header_size whole, length-append buf (end_magic ∷ []))),
      ))

-- Whatever byte comes in, the channel stays well formed.
feed-Holds :
    (l : Limits) (c : ChannelFd) (ms : Mailbox) (b : ℕ)
    → Holds l c ms
    → (ms' : Mailbox) × Holds l (feed c b) ms'
unfolding feed
feed-Holds l c ms b v =
    let good : ChannelFd → Type 0 =
      λ d. Framing c.cfg.max_msg_size d.msg_buf → (ms' : Mailbox) × Holds l d ms' in
    let same : (buf : List ℕ) → good (with c buf) = λ buf f. (ms, Holds-with l c ms buf v f) in
    if-elim good (length c.msg_buf == 0) _ _ (λ e. same _)
      (λ busy.
        if-elim good (ltb (length c.msg_buf) header_size) _ _ (λ short. same _)
          (λ long.
            if-elim good (ltb c.cfg.max_msg_size (msg_length c.msg_buf)) _ _ (λ large. same _)
              (λ small.
                if-elim good (ltb (length c.msg_buf) (header_size + msg_length c.msg_buf)) _ _
                  (λ less. same _)
                  (λ full.
                    if-elim good (b == end_magic) _ _
                      (λ e f.
                        complete-Holds l c ms c.msg_buf v (not-ltb _ _ small) (not-ltb _ _ full))
                      (λ e. same _)))))
      (feed-Framing c b v.framed).0

feed_all-Holds :
    (l : Limits) (c : ChannelFd) (ms : Mailbox) (bytes : List ℕ)
    → Holds l c ms
    → (ms' : Mailbox) × Holds l (feed_all c bytes) ms'
unfolding feed_all
feed_all-Holds l c ms [] v = (ms, v)
feed_all-Holds l c ms (b ∷ bytes) v =
    let (ms', v') = feed-Holds l c ms b v in feed_all-Holds l (feed c b) ms' bytes v'

-- Whatever bytes come in, in whatever chunks, the loop of reads of a well-formed channel ends and
-- leaves a well-formed channel that holds some mailbox.
pub read_loop-Holds :
    (l : Limits) (c : ChannelFd) (ms : Mailbox) (chunks : List (List ℕ))
    → Holds l c ms
    → (d : ChannelFd) × (ms' : Mailbox) × (read_loop c (map got chunks) ≡ some d) × Holds l d ms'
read_loop-Holds l c ms chunks v =
    let (ms', v') = feed_all-Holds l c ms (flatten chunks) v in
    (_, ms', read_loop-feed_all c chunks v.framed, v')

-- The bytes of a sender that sends each message, for which `write` returns the size of the frame.
unfoldable pub send_all : ChannelFd → List (List ℕ) → List ℕ
send_all c [] = []
send_all c (m ∷ msgs) =
    let (st, bytes, d) = chn_fd_send c m (length m) (some (msg_size_of (length m))) in
    bytes ++ send_all d msgs

-- The mailbox after each message was sent to it.
unfoldable pub mailbox_send_all : Limits → Mailbox → List (List ℕ) → Mailbox
mailbox_send_all l ms [] = ms
mailbox_send_all l ms (m ∷ msgs) = mailbox_send_all l (mailbox_send l ms m (length m)).1 msgs

enqueue-msg_buf : (c : ChannelFd) (m : ChannelMsg) → (enqueue c m).msg_buf ≡ c.msg_buf
unfolding enqueue
enqueue-msg_buf c m = ground arith

-- The frames that a sender writes, at a receiver.
feed_all-send_all :
    (l : Limits) (s c : ChannelFd) (fd : ℕ) (ms : Mailbox) (msgs : List (List ℕ))
    → s.write_fd ≡ some fd
    → s.cfg.max_msg_size ≡ l.max_size
    → msg_size_of l.max_size < 2 ^ 31
    → AllSent l msgs
    → Holds l (with c []) ms
    → Holds l (feed_all (with c []) (send_all s msgs)) (mailbox_send_all l ms msgs)
unfolding send_all mailbox_send_all feed_all
feed_all-send_all l s c fd ms [] open_fd same small sent v = v
feed_all-send_all l s c fd ms (m ∷ msgs) open_fd same small sent v =
    let (pos, le, rest) = sent in
    let n = length m in
    let queued = enqueue (with c []) (sized_msg n (take n m)) in
    let whole : feed_all (with c []) (frame m n) ≡ with queued [] =
      feed_all-frame c m n (omega arith) (omega arith) pos (omega (arith, v.largest))
      ∙ ap (λ b. with queued b) (enqueue-msg_buf (with c []) (sized_msg n (take n m))) in
    rw (chn_fd_send-frame s m n fd pos (omega (arith, same)) open_fd (omega arith)) (
      rw (feed_all-append (with c []) (frame m n) (send_all s msgs), whole)
        (feed_all-send_all l s queued fd (mailbox_send l ms m n).1 msgs open_fd same small rest (
          Holds-with l queued _ [] (enqueue-Holds l (with c []) ms m n v pos le (omega arith))
            (Framing-short _ _ (omega arith)))))

-- Messages of legal sizes, of which the sender is told that each was written whole, arrive,
-- however the bytes are cut into chunks: the loop of reads of a well-formed receiver that is
-- between two messages ends, and its queue is the mailbox to which the same messages were sent in
-- order; the sender has an open descriptor, both have the same largest size, and a frame of that
-- size has fewer than 2 ^ 31 bytes.
pub read_loop-send_all :
    (l : Limits) (s c : ChannelFd) (fd : ℕ) (ms : Mailbox) (msgs chunks : List (List ℕ))
    → s.write_fd ≡ some fd
    → s.cfg.max_msg_size ≡ l.max_size
    → msg_size_of l.max_size < 2 ^ 31
    → AllSent l msgs
    → Holds l (with c []) ms
    → flatten chunks ≡ send_all s msgs
    → (d : ChannelFd) × (read_loop (with c []) (map got chunks) ≡ some d)
      × Holds l d (mailbox_send_all l ms msgs)
read_loop-send_all l s c fd ms msgs chunks open_fd same small sent v pipe = (
  feed_all (with c []) (send_all s msgs),
  read_loop-feed_all (with c []) chunks v.framed ∙ ap (λ t. some (feed_all (with c []) t)) pipe,
  feed_all-send_all l s c fd ms msgs open_fd same small sent v,
)
