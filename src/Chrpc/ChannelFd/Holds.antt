-- ===== src/Chrpc/ChannelFd/Holds.antt =====
-- The queue of the channel over file descriptors is a mailbox, whatever bytes come in.
use chlibs.Common.{
  ℕ, ◌≤◌, ◌<◌, ◌≡◌, refl, sym, ◌∙◌, ap, ap₂, subst, Bool, true, false, ◌||◌, Option, none, some,
  List, [], ◌∷◌, ◌++◌, map, arith, length, take, drop, length-take, ltb, ◌==◌, if◌then◌else◌,
  Bool-cases, inl, inr, eq→==, ne→not-==, ==→eq, not-==→ne, lt→not-leb,
}
use mathlib.Core.List.{map-append}
use chlibs.Chutil.Queue.{Queue, q_cap, q_len, q_push, q_poll}
use chlibs.Chutil.Queue.Fifo.{fifo_push, fifo_poll, fifo_peek}
use chlibs.Chutil.Queue.Models.{Models, q_push-Models, q_poll-Models, q_peek-Models}
use chlibs.Chrpc.Channel.{
  Status, chn_success, chn_no_incoming_msg, chn_cannot_read, chn_channel_full, ChannelMsg,
}
use chlibs.Chrpc.Channel.Mailbox.{
  stored, length-map-stored, AllSent-append, take_all, Limits, Mailbox, mailbox_send,
  mailbox_incoming_len, mailbox_receive, AllSent, AgreesOut,
}
use chlibs.Chrpc.ChannelFd.{ChannelFd, enqueue, empty_status, chn_fd_incoming_len, chn_fd_receive}
use chlibs.Chrpc.ChannelFd.Feed.{with, Framing}

-- The channel is well formed, has the limits `l`, and its queue stores the mailbox.
pub record Holds (l : Limits) (c : ChannelFd) (ms : Mailbox) : Type 0 where
  pub over : c.cfg.write_over ≡ l.write_over
  pub largest : c.cfg.max_msg_size ≡ l.max_size
  pub depth : c.q.cap ≡ l.depth
  pub queued : Models c.q (map stored ms)
  pub sized : AllSent l ms
  pub framed : Framing c.cfg.max_msg_size c.msg_buf

-- The message of `len` bytes as the receiver queues it.
abbrev pub sized_msg : ℕ → List ℕ → ChannelMsg
sized_msg len bytes = record { msg_size = len; msg_buf = bytes }

Holds-if :
    (l : Limits) (b b' : Bool)
    → b ≡ b'
    → {x y : ChannelFd} {ms ms' : Mailbox} → (b' ≡ true → Holds l x ms)
    → (b' ≡ false → Holds l y ms')
    → Holds l (if b then x else y) (if b' then ms else ms')
Holds-if l true true e p q = p refl
Holds-if l false false e p q = q refl
Holds-if l true false e p q = cc
Holds-if l false true e p q = cc

pub if-elim :
    {A : Type 0} (P : A → Type 0) (b : Bool) (x y : A)
    → (b ≡ true → P x)
    → (b ≡ false → P y)
    → P (if b then x else y)
if-elim P true x y p q = p refl
if-elim P false x y p q = q refl

-- The status at an empty mailbox: nothing came yet if there is a descriptor to read, and nothing
-- will come if it was closed.
unfoldable pub nothing_there : Option ℕ → Status
nothing_there (some fd) = chn_no_incoming_msg
nothing_there none = chn_cannot_read

-- Where the queue is empty, the status `st` is reported; else it is the mailbox's answer.
unfoldable pub incoming_len_or : Status → Mailbox → Status × Option ℕ
incoming_len_or st [] = (st, none)
incoming_len_or st (m ∷ ms) = mailbox_incoming_len (m ∷ ms)

unfoldable pub receive_or : Status → Mailbox → ℕ → Status × Option (List ℕ × ℕ) × Mailbox
receive_or st [] len = (st, none, [])
receive_or st (m ∷ ms) len = mailbox_receive (m ∷ ms) len

sent_if :
    (full over : Bool) (x y z : Mailbox)
    → (if full then if over then x else y else z) ≡ (
        let r : Status × Mailbox =
          if full
          then if over then (chn_success, x) else (chn_channel_full, y)
          else (chn_success, z) in
        r.1)
sent_if true true x y z = refl
sent_if true false x y z = refl
sent_if false over x y z = refl

module _ (l : Limits) (c : ChannelFd) where
  -- Only the buffer differs.
  pub Holds-with :
      (ms : Mailbox) (buf : List ℕ)
      → Holds l c ms
      → Framing c.cfg.max_msg_size buf
      → Holds l (with c buf) ms
  Holds-with ms buf v f = record {
    over = v.over;
    largest = v.largest;
    depth = v.depth;
    queued = v.queued;
    sized = v.sized;
    framed = f;
  }

  -- The state after `enqueue` pushed at the queue `q`, where there is room.
  push-Holds :
      (q : Queue ChannelMsg) (ms : Mailbox) (m : List ℕ)
      → Holds l (record c { q = q }) ms
      → length ms < l.depth
      → 0 < length m
      → length m ≤ l.max_size
      → Holds l (record c { q = (q_push q (some (stored m))).1 }) (ms ++ (m ∷ []))
  unfolding fifo_push
  push-Holds q ms m v room pos le =
      let (st, m', cap) = q_push-Models (some (stored m)) v.queued in
      record {
        over = v.over;
        largest = v.largest;
        depth = cap ∙ v.depth;
        queued = rw (map-append stored ms (m ∷ [])) (
            rw
              (lt→not-leb q.cap (length (map stored ms))
                (omega (arith, v.depth, length-map-stored ms)))
              at m');
        sized = AllSent-append l ms m v.sized pos le;
        framed = v.framed;
      }

  -- at a full queue
  push_over :
      (ms : Mailbox) (m : List ℕ)
      → Holds l c ms
      → length ms ≡ l.depth
      → 0 < length m
      → length m ≤ l.max_size
      → Holds l
          (record c { q = (q_push (q_poll c.q true).2 (some (stored m))).1 })
          (drop 1 ms ++ (m ∷ []))
  unfolding fifo_poll
  push_over [] m v e pos le = absurd (omega (arith, v.depth, v.queued.index))
  push_over (x ∷ ms) m v e pos le =
      let (st, out, m', cap) = q_poll-Models true v.queued in
      push-Holds (q_poll c.q true).2 ms m
        (record {
          over = v.over;
          largest = v.largest;
          depth = cap ∙ v.depth;
          queued = m';
          sized = v.sized.2;
          framed = v.framed;
        })
        (omega arith) pos le

  -- `enqueue` follows the rule for a full mailbox.
  enqueue-stored :
      (ms : Mailbox) (m : List ℕ)
      → Holds l c ms
      → 0 < length m
      → length m ≤ l.max_size
      → Holds l (enqueue c (stored m)) (
          if length ms == l.depth
          then if l.write_over then drop 1 ms ++ (m ∷ []) else ms
          else ms ++ (m ∷ []))
  unfolding enqueue q_len q_cap fifo_poll
  enqueue-stored ms m v pos le =
      let counted : length ms ≡ c.q.len = sym (length-map-stored ms) ∙ v.queued.count in
      Holds-if l (c.q.len == c.q.cap) (length ms == l.depth)
        (ap₂ (λ a b. a == b) (sym counted) v.depth)
        (λ no_room.
          Holds-if l c.cfg.write_over l.write_over v.over
            (λ over. push_over ms m v (==→eq _ _ no_room) pos le) (λ refuse. v))
        (λ some_room.
          push-Holds c.q ms m v (omega (arith, not-==→ne _ _ some_room, v.depth, v.queued.room)) pos
            le)

  -- What is queued is what the mailbox stores at a send.
  pub enqueue-Holds :
      (ms : Mailbox) (msg : List ℕ) (len : ℕ)
      → Holds l c ms
      → 0 < len
      → len ≤ l.max_size
      → len ≤ length msg
      → Holds l (enqueue c (sized_msg len (take len msg))) (mailbox_send l ms msg len).1
  unfolding mailbox_send
  enqueue-Holds ms msg len v pos le h =
      let taken : length (take len msg) ≡ len = omega (arith, length-take len msg) in
      let legal : (len == 0 || ltb l.max_size len) ≡ false = ground arith in
      rw legal (
        subst (Holds l (enqueue c (sized_msg len (take len msg))))
          (sent_if (length ms == l.depth) l.write_over (drop 1 ms ++ (take len msg ∷ [])) ms
            (ms ++ (take len msg ∷ [])))
          (subst
            (λ n. Holds l (enqueue c (sized_msg n (take len msg))) (
              if length ms == l.depth
              then if l.write_over then drop 1 ms ++ (take len msg ∷ []) else ms
              else ms ++ (take len msg ∷ [])))
            taken (enqueue-stored ms (take len msg) v (omega arith) (omega arith))))

  empty_status-eq : empty_status c ≡ nothing_there c.read_fd
  unfolding nothing_there
  empty_status-eq = by_descriptor c.read_fd
    where
      by_descriptor :
          (fd : Option ℕ)
          → elim fd as (λ _. Status) [ none ↦ chn_cannot_read | some n ↦ chn_no_incoming_msg ]
            ≡ nothing_there fd
      by_descriptor none = refl
      by_descriptor (some n) = refl

  -- The incoming length of a well-formed channel over descriptors is that of its mailbox; at an
  -- empty mailbox the status tells whether there is a descriptor to read.
  pub chn_fd_incoming_len-eq :
      (ms : Mailbox)
      → Holds l c ms
      → chn_fd_incoming_len c ≡ incoming_len_or (nothing_there c.read_fd) ms
  unfolding chn_fd_incoming_len incoming_len_or mailbox_incoming_len q_len fifo_peek nothing_there
  chn_fd_incoming_len-eq [] v = rw (eq→== c.q.len 0 (sym v.queued.count)) refl
  chn_fd_incoming_len-eq (m ∷ ms) v =
      rw (ne→not-== c.q.len 0 (omega (arith, v.queued.count)), q_peek-Models v.queued) refl

  -- A receive from a well-formed channel over descriptors does what its mailbox does, but that at
  -- an empty mailbox the status is that there is no message if there is a descriptor to read, and
  -- that the channel cannot be read if there is none.
  pub chn_fd_receive-Agrees :
      (ms : Mailbox) (len : ℕ)
      → Holds l c ms
      → AgreesOut (Holds l) (chn_fd_receive c len) (receive_or (nothing_there c.read_fd) ms len)
  unfolding chn_fd_receive receive_or mailbox_receive q_len fifo_peek fifo_poll
  chn_fd_receive-Agrees [] len v =
      rw (eq→== c.q.len 0 (sym v.queued.count))
        (record { status = empty_status-eq; out = refl; left = v })
  chn_fd_receive-Agrees (m ∷ ms) len v =
      rw (ne→not-== c.q.len 0 (omega (arith, v.queued.count)), q_peek-Models v.queued)
        (elim (Bool-cases (ltb len (length m))) [
          | inl small ↦ rw small (record { status = refl; out = refl; left = v })
          | inr fits ↦
              let (st, out, m', cap) = q_poll-Models true v.queued in
              rw (fits, out)
                (record {
                  status = refl;
                  out = ap (λ t. some (t, length m)) (take_all m);
                  left = record {
                    over = v.over;
                    largest = v.largest;
                    depth = cap ∙ v.depth;
                    queued = m';
                    sized = v.sized.2;
                    framed = v.framed;
                  };
                })
        ])
