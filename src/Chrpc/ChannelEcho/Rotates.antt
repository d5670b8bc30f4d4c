-- ===== src/Chrpc/ChannelEcho/Rotates.antt =====
-- The echo thread over a channel that keeps the mailbox contract.
use chlibs.Common.{
  ℕ, zero, suc, ◌≤◌, ◌<◌, ◌≡◌, refl, ap, subst, true, false, ◌||◌, some, List, [], ◌∷◌, ◌++◌,
  length, replicate, ltb, ◌==◌, length-append, arith, le→not-ltb, ne→not-==,
}
use chlibs.Chrpc.Channel.{chn_success, ChannelImpl}
use chlibs.Chrpc.Channel.Mailbox.{
  Limits, Mailbox, mailbox_send, mailbox_incoming_len, mailbox_receive, Agrees, AgreesOut,
  MailboxLaws, take_all,
}
use chlibs.Chrpc.ChannelEcho.{
  Round, go_on, echo_msg, echo_incoming, echo_round, echo_loop, echo_thread,
}

-- the mailbox after `n` messages went from the front to the back
unfoldable pub rotate : ℕ → Mailbox → Mailbox
rotate zero ms = ms
rotate (suc n) [] = []
rotate (suc n) (m ∷ ms) = rotate n (ms ++ (m ∷ []))

rotate-empty : (n : ℕ) → rotate n [] ≡ []
unfolding rotate
rotate-empty zero = refl
rotate-empty (suc n) = refl

rotate_one : (n : ℕ) (ms : Mailbox) → rotate n (rotate 1 ms) ≡ rotate (suc n) ms
unfolding rotate
rotate_one n [] = rotate-empty n
rotate_one n (m ∷ ms) = refl

length-rotate_one : (ms : Mailbox) → length (rotate 1 ms) ≡ length ms
unfolding rotate
length-rotate_one [] = refl
length-rotate_one (m ∷ ms) = omega (arith, length-append ms (m ∷ []))

module _ {C : Type 0} {impl : ChannelImpl C} {l : Limits} (laws : MailboxLaws impl l) where
  -- what a round leaves: it goes on with a channel that holds `ms`
  record GoesOn (r : Round C) (ms : Mailbox) : Type 0 where
    left : C
    same : r ≡ go_on left
    held : laws.Holds left ms

  sent_back :
      (m : List ℕ) (ms : Mailbox)
      → 0 < length m
      → length m ≤ l.max_size
      → length ms < l.depth
      → mailbox_send l ms m (length m) ≡ (chn_success, ms ++ (m ∷ []))
  unfolding mailbox_send
  sent_back m ms pos le room =
      let legal : (length m == 0 || ltb l.max_size (length m)) ≡ false = ground arith in
      rw (legal, ne→not-== (length ms) l.depth (omega arith))
        (ap (λ t. (chn_success, ms ++ (t ∷ []))) (take_all m))

  taken_out :
      (m : List ℕ) (ms : Mailbox)
      → length m ≤ l.max_size
      → mailbox_receive (m ∷ ms) l.max_size ≡ (chn_success, some (m, length m), ms)
  unfolding mailbox_receive
  taken_out m ms le = rw (le→not-ltb l.max_size (length m) le) refl

  echo_msg-GoesOn :
      (c : C) (m : List ℕ) (ms : Mailbox)
      → laws.Holds c (m ∷ ms)
      → length (m ∷ ms) ≤ l.depth
      → GoesOn (echo_msg impl l.max_size c (length m)) (ms ++ (m ∷ []))
  unfolding echo_msg
  echo_msg-GoesOn c m ms v room =
      let (pos, le, rest) = laws.sent c (m ∷ ms) v in
      let r =
        subst (AgreesOut laws.Holds (impl.receive c l.max_size)) (taken_out m ms le)
          (laws.receive_law c (m ∷ ms) l.max_size v) in
      let d = (impl.receive c l.max_size).2 in
      let s =
        subst (Agrees laws.Holds (impl.send d m (length m))) (sent_back m ms pos le (omega arith))
          (laws.send_law d ms m (length m) r.left (omega arith)) in
      record {
        left = (impl.send d m (length m)).1;
        same = rw (le→not-ltb l.max_size (length m) le, r.status, r.out, s.status) refl;
        held = s.left;
      }

  -- A round moves the first message, if there is one, to the back.
  echo_round-GoesOn :
      (c : C) (ms : Mailbox)
      → laws.Holds c ms
      → length ms ≤ l.depth
      → GoesOn (echo_round impl l.max_size c) (rotate 1 ms)
  unfolding echo_round echo_incoming mailbox_incoming_len rotate
  echo_round-GoesOn c [] v room =
      let s = laws.refresh_law c [] v in
      let d = (impl.refresh c).1 in
      record {
        left = d;
        same = rw (s.status, laws.incoming_len_law d [] s.left) refl;
        held = s.left;
      }
  echo_round-GoesOn c (m ∷ ms) v room =
      let s = laws.refresh_law c (m ∷ ms) v in
      let d = (impl.refresh c).1 in
      let g = echo_msg-GoesOn d m ms s.left room in
      record {
        left = g.left;
        same = rw (s.status, laws.incoming_len_law d (m ∷ ms) s.left) g.same;
        held = g.held;
      }

  echo_loop-rotate :
      (n : ℕ) (c : C) (ms : Mailbox)
      → laws.Holds c ms
      → length ms ≤ l.depth
      → (d : C) × (echo_loop impl l.max_size (replicate n false ++ (true ∷ [])) c
          ≡ (some chn_success, d))
        × laws.Holds d (rotate n ms)
  unfolding echo_loop rotate
  echo_loop-rotate zero c ms v room = (c, refl, v)
  echo_loop-rotate (suc n) c ms v room =
      let g = echo_round-GoesOn c ms v room in
      let (d, e, v') =
        echo_loop-rotate n g.left (rotate 1 ms) g.held (omega (arith, length-rotate_one ms)) in
      (d, rw (echo_loop, g.same) e, subst (laws.Holds d) (rotate_one n ms) v')

  -- Over a channel that keeps the mailbox contract and holds no more messages than its depth, the
  -- echo thread, told to stop after n rounds, stores success and leaves the mailbox with its first
  -- messages moved to the back one by one, n times.
  pub echo_thread-rotate :
      (n : ℕ) (c : C) (ms : Mailbox)
      → laws.Holds c ms
      → length ms ≤ l.depth
      → (d : C) × (echo_thread impl (replicate n false ++ (true ∷ [])) c ≡ (some chn_success, d))
        × laws.Holds d (rotate n ms)
  unfolding echo_thread
  echo_thread-rotate n c ms v room =
      let (d, e, v') = echo_loop-rotate n c ms v room in
      let mms = laws.max_msg_size_law c ms v in
      (d, rw (echo_thread, ap (λ t. t.0) mms, ap (λ t. t.1) mms) e, v')
