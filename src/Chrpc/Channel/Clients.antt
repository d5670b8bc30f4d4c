-- ===== src/Chrpc/Channel/Clients.antt =====
-- Clients of a channel through the checked functions of channel.h: what a sequence of calls
-- returns. The calls of several threads, each of which is one step, are such a sequence.
use chlibs.Common.{ℕ, ◌≤◌, ◌≡◌, refl, ap, ap₂, true, Option, none, some, List, [], ◌∷◌, length}
use chlibs.Chrpc.Channel.{
  Status, chn_success, ChannelImpl, chn_max_msg_size, chn_send, chn_refresh, chn_incoming_len,
  chn_receive,
}
use chlibs.Chrpc.Channel.Mailbox.{
  Limits, Mailbox, mailbox_send, mailbox_incoming_len, mailbox_receive, MailboxLaws,
}

pub data Call : Type 0 where
  max_msg_size : Call
  send : List ℕ → ℕ → Call
  refresh : Call
  incoming_len : Call
  receive : ℕ → Call

-- What a call returns: its status, and the bytes and the number that it stores, if any.
abbrev pub Reply : Type 0
Reply = Status × Option (List ℕ) × Option ℕ

-- Each `send` gives a buffer of at least the length that it names.
abbrev pub AllBacked : List Call → Type 0
AllBacked [] = Unit {0}
AllBacked (send msg len ∷ calls) = (len ≤ length msg) × AllBacked calls
AllBacked (_ ∷ calls) = AllBacked calls

abbrev pub received : Status → Option (List ℕ × ℕ) → Reply
received st none = (st, none, none)
received st (some (bytes, n)) = (st, some bytes, some n)

module _ {C : Type 0} (impl : ChannelImpl C) where
  abbrev next : Option C → C → C
  next none c = c
  next (some d) c = d

  unfoldable pub run_calls : C → List Call → List Reply
  run_calls c [] = []
  run_calls c (max_msg_size ∷ calls) =
      let (st, n) = chn_max_msg_size impl (some c) true in (st, none, n) ∷ run_calls c calls
  run_calls c (send msg len ∷ calls) =
      let (st, d) = chn_send impl (some c) (some msg) len in
      (st, none, none) ∷ run_calls (next d c) calls
  run_calls c (refresh ∷ calls) =
      let (st, d) = chn_refresh impl (some c) in (st, none, none) ∷ run_calls (next d c) calls
  run_calls c (incoming_len ∷ calls) =
      let (st, n) = chn_incoming_len impl (some c) true in (st, none, n) ∷ run_calls c calls
  run_calls c (receive len ∷ calls) =
      let (st, out, d) = chn_receive impl (some c) true len true in
      received st out ∷ run_calls (next d c) calls

unfoldable pub run_mailbox : Limits → Mailbox → List Call → List Reply
run_mailbox l ms [] = []
run_mailbox l ms (max_msg_size ∷ calls) =
    (chn_success, none, some l.max_size) ∷ run_mailbox l ms calls
run_mailbox l ms (send msg len ∷ calls) =
    let (st, ms') = mailbox_send l ms msg len in (st, none, none) ∷ run_mailbox l ms' calls
run_mailbox l ms (refresh ∷ calls) = (chn_success, none, none) ∷ run_mailbox l ms calls
run_mailbox l ms (incoming_len ∷ calls) =
    let (st, n) = mailbox_incoming_len ms in (st, none, n) ∷ run_mailbox l ms calls
run_mailbox l ms (receive len ∷ calls) =
    let (st, out, ms') = mailbox_receive ms len in received st out ∷ run_mailbox l ms' calls

module _ {C : Type 0} {impl : ChannelImpl C} {l : Limits} (laws : MailboxLaws impl l) where
  -- No sequence of calls tells a channel that keeps the contract from the mailbox that it holds.
  pub run_calls-run_mailbox :
      (calls : List Call) (c : C) (ms : Mailbox)
      → laws.Holds c ms
      → AllBacked calls
      → run_calls impl c calls ≡ run_mailbox l ms calls
  unfolding run_calls run_mailbox chn_max_msg_size chn_send chn_refresh chn_incoming_len chn_receive
  run_calls-run_mailbox [] c ms v b = refl
  run_calls-run_mailbox (max_msg_size ∷ calls) c ms v b =
      ap₂ ◌∷◌ (ap (λ t. (t.0, none, some t.1)) (laws.max_msg_size_law c ms v))
        (run_calls-run_mailbox calls c ms v b)
  run_calls-run_mailbox (send msg len ∷ calls) c ms v b =
      let s = laws.send_law c ms msg len v b.0 in
      ap₂ ◌∷◌ (ap (λ t. (t, none, none)) s.status) (run_calls-run_mailbox calls _ _ s.left b.1)
  run_calls-run_mailbox (refresh ∷ calls) c ms v b =
      let s = laws.refresh_law c ms v in
      ap₂ ◌∷◌ (ap (λ t. (t, none, none)) s.status) (run_calls-run_mailbox calls _ _ s.left b)
  run_calls-run_mailbox (incoming_len ∷ calls) c ms v b =
      ap₂ ◌∷◌ (ap (λ t. (t.0, none, t.1)) (laws.incoming_len_law c ms v))
        (run_calls-run_mailbox calls c ms v b)
  run_calls-run_mailbox (receive len ∷ calls) c ms v b =
      let s = laws.receive_law c ms len v in
      ap₂ ◌∷◌ (ap₂ received s.status s.out) (run_calls-run_mailbox calls _ _ s.left b)
