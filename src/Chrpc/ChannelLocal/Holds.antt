-- ===== src/Chrpc/ChannelLocal/Holds.antt =====
-- The channel of channel_local.c keeps the mailbox contract.
use chlibs.Common.{
  ℕ, ◌≤◌, ◌<◌, ◌≡◌, ◌≢◌, refl, sym, ◌∙◌, ap, Bool, true, false, ◌||◌, some, List, [], ◌∷◌, ◌++◌,
  map, arith, length, take, drop, length-take, ltb, ◌==◌, if◌then◌else◌, Bool-cases, inl, inr,
  eq→==, ne→not-==, ==→eq, not-==→ne, lt→not-leb,
}
use mathlib.Core.List.{map-append}
use chlibs.Chutil.Queue.{Queue, q_cap, q_len, q_poll}
use chlibs.Chutil.Queue.Fifo.{fifo_push, fifo_poll, fifo_peek}
use chlibs.Chutil.Queue.Models.{Models, q_push-Models, q_poll-Models, q_peek-Models}
use chlibs.Chrpc.Channel.{Status, chn_success, chn_channel_full, ChannelMsg}
use chlibs.Chrpc.Channel.Mailbox.{
  stored, length-map-stored, AllSent-append, take_all, Limits, Mailbox, mailbox_send,
  mailbox_incoming_len, mailbox_receive, AllSent, Agrees, AgreesOut, MailboxLaws,
}
use chlibs.Chrpc.Channel.Clients.{Call, AllBacked, run_calls, run_mailbox, run_calls-run_mailbox}
use chlibs.Chrpc.ChannelLocal.{
  ChannelLocal, ChannelLocalConfig, local_msg, push_msg, chn_l_send, chn_l_incoming_len,
  chn_l_max_msg_size, chn_l_refresh, chn_l_receive, channel_local_impl,
}

abbrev pub limits : ChannelLocalConfig → Limits
limits cfg = record {
  depth = cfg.queue_depth;
  write_over = cfg.write_over;
  max_size = cfg.max_msg_size;
}

-- The channel is well formed, has the limits `l`, and its queue stores the mailbox.
pub record Holds (l : Limits) (c : ChannelLocal) (ms : Mailbox) : Type 0 where
  pub over : c.cfg.write_over ≡ l.write_over
  pub largest : c.cfg.max_msg_size ≡ l.max_size
  pub depth : c.queue.cap ≡ l.depth
  pub queued : Models c.queue (map stored ms)
  pub sized : AllSent l ms

local_msg-stored :
    (msg : List ℕ) (len : ℕ) → len ≤ length msg → local_msg msg len ≡ stored (take len msg)
local_msg-stored msg len h =
    let e : len ≡ length (take len msg) = omega (arith, length-take len msg) in
    ap (λ n. record { msg_size = n; msg_buf = take len msg }) e

Agrees-if :
    (l : Limits) (b b' : Bool)
    → b ≡ b'
    → {x y : Status × ChannelLocal} {x' y' : Status × Mailbox} → (b' ≡ true → Agrees (Holds l) x x')
    → (b' ≡ false → Agrees (Holds l) y y')
    → Agrees (Holds l) (if b then x else y) (if b' then x' else y')
Agrees-if l true true e p q = p refl
Agrees-if l false false e p q = q refl
Agrees-if l true false e p q = cc
Agrees-if l false true e p q = cc

module _ (l : Limits) (c : ChannelLocal) (msg : List ℕ) (len : ℕ) where
  -- Storing a message of a legal size at a queue with room appends it.
  push_msg-Holds :
      (q : Queue ChannelMsg) (ms : Mailbox)
      → c.cfg.write_over ≡ l.write_over
      → c.cfg.max_msg_size ≡ l.max_size
      → q.cap ≡ l.depth
      → Models q (map stored ms)
      → AllSent l ms
      → length ms < l.depth
      → 0 < len
      → len ≤ l.max_size
      → len ≤ length msg
      → Agrees (Holds l) (push_msg c q msg len) (chn_success, ms ++ (take len msg ∷ []))
  unfolding push_msg fifo_push
  push_msg-Holds q ms over largest depth m s room pos le h =
      let (st, m', cap) = q_push-Models (some (local_msg msg len)) m in
      let taken : length (take len msg) ≡ len = omega (arith, length-take len msg) in
      let appended : map stored (ms ++ (take len msg ∷ []))
          ≡ map stored ms ++ (local_msg msg len ∷ []) =
        map-append stored ms _
        ∙ ap (λ t. map stored ms ++ (t ∷ [])) (sym (local_msg-stored msg len h)) in
      record {
        status = refl;
        left = record {
          over = over;
          largest = largest;
          depth = cap ∙ depth;
          queued = rw appended (
              rw (lt→not-leb q.cap (length (map stored ms)) (omega (arith, length-map-stored ms)))
                at m');
          sized = AllSent-append l ms _ s (omega arith) (omega arith);
        };
      }

  -- at a full queue
  full :
      (ms : Mailbox)
      → Holds l c ms
      → length ms ≡ l.depth
      → 0 < len
      → len ≤ l.max_size
      → len ≤ length msg
      → Agrees
          (Holds l)
          (if c.cfg.write_over
            then push_msg c (q_poll c.queue true).2 msg len
            else (chn_channel_full, c))
          (if l.write_over
            then (chn_success, drop 1 ms ++ (take len msg ∷ []))
            else (chn_channel_full, ms))
  unfolding fifo_poll
  full [] v e pos le h = absurd (omega (arith, v.depth, v.queued.index))
  full (m ∷ ms) v e pos le h =
      let (st, out, m', cap) = q_poll-Models true v.queued in
      Agrees-if l c.cfg.write_over l.write_over v.over
        (λ over.
          push_msg-Holds (q_poll c.queue true).2 ms v.over v.largest (cap ∙ v.depth) m' v.sized.2
            (omega arith) pos le h)
        (λ refuse. record { status = refl; left = v })

  -- A send to a local channel returns the status of a send to its mailbox and leaves that mailbox:
  -- sizes that are refused, a full queue that refuses or loses its oldest message, and room; the
  -- buffer has the bytes that the length names.
  pub chn_l_send-Agrees :
      (ms : Mailbox)
      → Holds l c ms
      → len ≤ length msg
      → Agrees (Holds l) (chn_l_send c msg len) (mailbox_send l ms msg len)
  unfolding chn_l_send mailbox_send q_len q_cap
  chn_l_send-Agrees ms v h = elim (Bool-cases (len == 0 || ltb l.max_size len)) [
    | inl bad ↦
        let bad' : (len == 0 || ltb c.cfg.max_msg_size len) ≡ true = ground (arith, v.largest) in
        rw (bad', bad) (record { status = refl; left = v })
    | inr good ↦
        let good' : (len == 0 || ltb c.cfg.max_msg_size len) ≡ false = ground (arith, v.largest) in
        let pos : 0 < len = ground arith in
        let le : len ≤ l.max_size = ground arith in
        let counted : length ms ≡ c.queue.len = sym (length-map-stored ms) ∙ v.queued.count in
        rw (good', good)
          (elim (Bool-cases (length ms == l.depth)) [
            | inr some_room ↦
                let ne : length ms ≢ l.depth = not-==→ne _ _ some_room in
                let some_room' : (c.queue.len == c.queue.cap) ≡ false =
                  ne→not-== _ _ (λ e. ne (counted ∙ e ∙ v.depth)) in
                rw (some_room', some_room)
                  (push_msg-Holds c.queue ms v.over v.largest v.depth v.queued v.sized
                    (omega (arith, v.depth, v.queued.room)) pos le h)
            | inl no_room ↦
                let eq : length ms ≡ l.depth = ==→eq _ _ no_room in
                let no_room' : (c.queue.len == c.queue.cap) ≡ true =
                  eq→== _ _ (sym counted ∙ eq ∙ sym v.depth) in
                rw (no_room', no_room) (full ms v eq pos le h)
          ])
  ]

module _ (l : Limits) (c : ChannelLocal) where
  pub chn_l_incoming_len-eq :
      (ms : Mailbox) → Holds l c ms → chn_l_incoming_len c ≡ mailbox_incoming_len ms
  unfolding chn_l_incoming_len mailbox_incoming_len q_len fifo_peek
  chn_l_incoming_len-eq [] v = rw (eq→== c.queue.len 0 (sym v.queued.count)) refl
  chn_l_incoming_len-eq (m ∷ ms) v =
      rw (ne→not-== c.queue.len 0 (omega (arith, v.queued.count)), q_peek-Models v.queued) refl

  -- A receive from a local channel returns what its mailbox returns and leaves that mailbox: no
  -- message, a message too large for the buffer, which stays, and a message that is taken.
  pub chn_l_receive-Agrees :
      (ms : Mailbox) (len : ℕ)
      → Holds l c ms
      → AgreesOut (Holds l) (chn_l_receive c len) (mailbox_receive ms len)
  unfolding chn_l_receive mailbox_receive q_len fifo_peek fifo_poll
  chn_l_receive-Agrees [] len v =
      rw (eq→== c.queue.len 0 (sym v.queued.count)) (record { status = refl; out = refl; left = v })
  chn_l_receive-Agrees (m ∷ ms) len v =
      rw (ne→not-== c.queue.len 0 (omega (arith, v.queued.count)), q_peek-Models v.queued)
        (elim (Bool-cases (ltb len (length m))) [
          | inl small ↦ rw small (record { status = refl; out = refl; left = v })
          | inr fits ↦
              let (st, out, m', cap) = q_poll-Models true v.queued in
              rw (fits, out)
                (record {
                  status = refl;
                  out = ap (λ t. some (t, length m)) (take_all m);
                  left = record {
                    over = v.over;
                    largest = v.largest;
                    depth = cap ∙ v.depth;
                    queued = m';
                    sized = v.sized.2;
                  };
                })
        ])

-- A channel whose states hold mailboxes of the limits `l` keeps the contract.
unfoldable pub channel_local_laws : (l : Limits) → MailboxLaws channel_local_impl l
unfolding chn_l_max_msg_size chn_l_refresh
channel_local_laws l = record {
  Holds = Holds l;
  sent = λ c ms v. v.sized;
  max_msg_size_law = λ c ms v. ap (λ t. (chn_success, t)) v.largest;
  send_law = λ c ms msg len v h. chn_l_send-Agrees l c msg len ms v h;
  refresh_law = λ c ms v. record { status = refl; left = v };
  incoming_len_law = λ c ms v. chn_l_incoming_len-eq l c ms v;
  receive_law = λ c ms len v. chn_l_receive-Agrees l c ms len v;
}

-- A client that calls a local channel through the channel interface gets, call by call, what the
-- mailbox that the channel holds would answer, if every send has the bytes that it names.
pub run_calls-channel_local :
    (l : Limits) (calls : List Call) (c : ChannelLocal) (ms : Mailbox)
    → Holds l c ms
    → AllBacked calls
    → run_calls channel_local_impl c calls ≡ run_mailbox l ms calls
unfolding channel_local_laws
run_calls-channel_local l calls c ms v b =
    run_calls-run_mailbox (channel_local_laws l) calls c ms v b

-- A configuration of positive depth, with a mutex and a queue table of its depth, makes a channel
