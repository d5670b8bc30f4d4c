-- ===== src/Chrpc/RpcServer/Invariant.antt =====
-- Every step keeps the count of the channels, the room for them and their identifiers.
use chlibs.Common.{
  ℕ, ◌+◌, ◌^◌, ◌≤◌, ◌<◌, ◌≡◌, ◌≢◌, ◌⊎◌, refl, sym, ◌∙◌, ap, subst, subst₂, Bool, true, false,
  Option, none, some, List, [], ◌∷◌, ◌++◌, arith, length, length-append, ◌==◌, if◌then◌else◌,
  not-==→ne, ne→not-==, ℕ_discrete, inl, inr, Bool-cases, lt→not-leb,
}
use chlibs.Chutil.Queue.{Queue, q_push, q_poll}
use chlibs.Chutil.Queue.Fifo.{fifo_push, fifo_poll}
use chlibs.Chutil.Queue.Models.{Models, q_push-Models, q_poll-Models}
use chlibs.Chrpc.Channel.{ChannelImpl}
use chlibs.Chrpc.SerialType.{Status, success, client_channel_empty}
use chlibs.Chrpc.RpcServer.{QueueEle, Server}
use chlibs.Chrpc.RpcServer.Handling.{chrpc_poll_channel}
use chlibs.Chrpc.RpcServer.Serving.{
  enqueue_channel, chrpc_server_give_channel, worker_poll, worker_serve, worker_return, judge,
  uint64_max,
}
use chlibs.Chrpc.RpcServer.Interleaving.{Turn, polled, served, System}

unfoldable pub one_at : ℕ → ℕ → ℕ
one_at a i = if a == i then 1 else 0

one_at-le : (a i : ℕ) → one_at a i ≤ 1
unfolding one_at
one_at-le a i = elim (Bool-cases (a == i)) [
  | inl e ↦ rw e (omega arith)
  | inr e ↦ rw e (omega arith)
]

one_at-ne : (a i : ℕ) → a ≢ i → one_at a i ≡ 0
unfolding one_at
one_at-ne a i h = rw (ne→not-== a i h) refl

module _ {C : Type 0} where
  abbrev pub turn_id : Turn C → ℕ
  turn_id (polled ele) = ele.id
  turn_id (served (b, ele)) = ele.id

  -- how often an identifier is in the queue, and with a worker
  abbrev pub queued_as : ℕ → List (QueueEle C) → ℕ
  queued_as i [] = 0
  queued_as i (x ∷ xs) = one_at x.id i + queued_as i xs

  abbrev pub worked_as : ℕ → List (Turn C) → ℕ
  worked_as i [] = 0
  worked_as i (t ∷ ts) = one_at (turn_id t) i + worked_as i ts

  queued_as-append :
      (i : ℕ) (xs ys : List (QueueEle C)) → queued_as i (xs ++ ys) ≡ queued_as i xs + queued_as i ys
  queued_as-append i [] ys = omega arith
  queued_as-append i (x ∷ xs) ys = omega (arith, queued_as-append i xs ys)

  worked_as-append :
      (i : ℕ) (ts us : List (Turn C)) → worked_as i (ts ++ us) ≡ worked_as i ts + worked_as i us
  worked_as-append i [] us = omega arith
  worked_as-append i (t ∷ ts) us = omega (arith, worked_as-append i ts us)

-- The queue holds `xs`; every channel is counted once, wherever it is; there is room for all of
-- them; identifiers are used once and are below the counter.
pub record SystemOk {S C : Type 0} (sys : System S C) (xs : List (QueueEle C)) : Type 0 where
  pub models : Models sys.server.queue xs
  pub counted : sys.server.num_channels ≡ length xs + length sys.turns
  pub bounded : sys.server.num_channels ≤ sys.server.queue.cap
  pub counter : sys.server.id_counter < 2 ^ 64
  pub unique : (i : ℕ) → queued_as i xs + worked_as i sys.turns ≤ 1
  pub fresh : (i : ℕ) → sys.server.id_counter ≤ i → queued_as i xs + worked_as i sys.turns ≡ 0

room_push :
    {A : Type 0} (cap : ℕ) (xs : List A) (x : A)
    → length xs < cap
    → fifo_push cap xs (some x) ≡ (0, xs ++ x ∷ [])
unfolding fifo_push
room_push cap xs x h = rw (lt→not-leb cap (length xs) h) refl

-- a push into a queue that is not full
pub pushed :
    {A : Type 0} {q : Queue A} {xs : List A} (x : A)
    → Models q xs
    → length xs < q.cap
    → ((q_push q (some x)).0 ≡ 0)
      × Models (q_push q (some x)).1 (xs ++ x ∷ [])
      × ((q_push q (some x)).1.cap ≡ q.cap)
pushed {A} {q} {xs} x m room =
    let (st, m', c) = q_push-Models (some x) m in
    let e = room_push q.cap xs x room in
    (st ∙ ap (λ r. r.0) e, subst (λ ys. Models (q_push q (some x)).1 ys) (ap (λ r. r.1) e) m', c)

module _ {S C : Type 0} where
  enqueue_channel-SystemOk :
      (server : Server S C) (turns : List (Turn C)) (xs : List (QueueEle C)) (chn : C) (now : ℕ)
      → SystemOk record { server = server; turns = turns } xs
      → server.num_channels ≢ server.queue.cap
      → server.id_counter ≢ uint64_max
      → SystemOk
          record { server = enqueue_channel server chn now; turns = turns }
          (xs ++ record { id = server.id_counter; since_last_req = now; chn = chn } ∷ [])
  unfolding enqueue_channel
  enqueue_channel-SystemOk server turns xs chn now ok some_room some_id =
      let ele : QueueEle C = record { id = server.id_counter; since_last_req = now; chn = chn } in
      let small = ok.models.small in
      let (st, m, cap) = pushed ele ok.models (omega (arith, ok.counted, ok.bounded)) in
      record {
        models = m;
        counted = omega (arith, ok.counted, ok.bounded, length-append xs (ele ∷ []));
        bounded = omega (arith, ok.bounded, cap);
        counter = omega (arith, ok.counter);
        unique = λ i.
            let split = queued_as-append i xs (ele ∷ []) in
            let once = ok.unique i in
            elim (ℕ_discrete server.id_counter i) [
              | yes e ↦
                  omega (arith, split, one_at-le server.id_counter i, ok.fresh i (omega (arith, e)))
              | no ne ↦ omega (arith, split, one_at-ne server.id_counter i ne, once)
            ];
        fresh = λ i h.
            let above : server.id_counter < i = omega (arith, ok.counter, h) in
            omega (
              arith,
              queued_as-append i xs (ele ∷ []),
              one_at-ne server.id_counter i (λ e. absurd (omega (arith, e, above))),
              ok.fresh i (omega (arith, above)),
            );
      }

  -- The channel is refused, or there was room for it and for its identifier.
  given :
      {A : Type 0} (b1 b2 b3 : Bool) (x y z : A) (s r : Server S C)
      → (let g : A × Server S C =
            if b1 then (x, s) else if b2 then (y, s) else if b3 then (y, s) else (z, r) in
          (g.1 ≡ s) ⊎ ((b2 ≡ false) × (b3 ≡ false) × (g.1 ≡ r)))
  given true b2 b3 x y z s r = inl refl
  given false true b3 x y z s r = inl refl
  given false false true x y z s r = inl refl
  given false false false x y z s r = inr (refl, refl, refl)

judge-id :
    {C : Type 0} (st : Status) (idle_timeout now : ℕ) (ele : QueueEle C)
    → (judge st idle_timeout now ele).1.id ≡ ele.id
unfolding judge
judge-id success idle_timeout now ele = refl
judge-id client_channel_empty idle_timeout now ele = refl
judge-id _ idle_timeout now ele = refl

module _ {S C : Type 0} (impl : ChannelImpl C) where
  pub gives-SystemOk :
      (server : Server S C) (turns : List (Turn C)) (xs : List (QueueEle C)) (chn : Option C)
      (now : ℕ)
      → SystemOk record { server = server; turns = turns } xs
      → (ys : List (QueueEle C)) × SystemOk
          record { server = (chrpc_server_give_channel impl server chn now).1; turns = turns }
          ys
  unfolding chrpc_server_give_channel
  gives-SystemOk server turns xs none now ok = (xs, ok)
  gives-SystemOk server turns xs (some chn) now ok =
      let after : (s : Server S C) → Type 0 =
        λ s. (ys : List (QueueEle C)) × SystemOk record { server = s; turns = turns } ys in
      elim (given _ (server.num_channels == server.queue.cap) (server.id_counter == uint64_max) _ _
        _ server (enqueue_channel server chn now)) [
          | inl e ↦ subst after (sym e) (xs, ok)
          | inr (a, b, e) ↦ subst after (sym e) (
            _,
            enqueue_channel-SystemOk server turns xs chn now ok (not-==→ne _ _ a) (not-==→ne _ _ b),
          )
        ]

  pub polls-SystemOk :
      (server server' : Server S C) (turns : List (Turn C)) (xs : List (QueueEle C))
      (ele : QueueEle C)
      → SystemOk record { server = server; turns = turns } xs
      → worker_poll server ≡ (some ele, server')
      → (ys : List (QueueEle C)) × SystemOk
          record { server = server'; turns = polled ele ∷ turns }
          ys
  unfolding worker_poll fifo_poll
  polls-SystemOk server server' turns [] ele ok e =
      let (st, out, m, cap) = q_poll-Models true ok.models in
      let shown = ap (λ r. r.0) e in absurd (cc (out, shown))
  polls-SystemOk server server' turns (x ∷ xs) ele ok e =
      let (st, out, m, cap) = q_poll-Models true ok.models in
      let shown = ap (λ r. r.0) e in
      let same : x ≡ ele = cc (out, shown) in
      let polled_server = record server { queue = (q_poll server.queue true).2 } in
      let left : polled_server ≡ server' = ap (λ r. r.1) e in
      (
        xs,
        subst₂ (λ s y. SystemOk record { server = s; turns = polled y ∷ turns } xs) left same
            (record {
              models = m;
              counted = omega (arith, ok.counted);
              bounded = omega (arith, ok.bounded, cap);
              counter = ok.counter;
              unique = λ i. omega (arith, ok.unique i);
              fresh = λ i h. omega (arith, ok.fresh i h);
            }),
      )

  pub serves-SystemOk :
      (server : Server S C) (before after : List (Turn C)) (xs : List (QueueEle C))
      (ele : QueueEle C) (now : ℕ)
      → SystemOk record { server = server; turns = before ++ polled ele ∷ after } xs
      → SystemOk
          record {
            server = (worker_serve impl ele now server).1;
            turns = before ++ served (worker_serve impl ele now server).0 ∷ after;
          }
          xs
  unfolding worker_serve
  serves-SystemOk server before after xs ele now ok =
      let (status, chn, s) = chrpc_poll_channel impl ele server in
      let one = length-append before (polled ele ∷ after) in
      let other = length-append before (served (worker_serve impl ele now server).0 ∷ after) in
      let same : (i : ℕ)
          → worked_as i (before ++ polled ele ∷ after)
            ≡ worked_as i (before ++ served (worker_serve impl ele now server).0 ∷ after) =
        λ i.
          let id =
            ap (λ a. one_at a i)
              (judge-id (chrpc_poll_channel impl ele server).0 server.attrs.idle_timeout now
                record ele { chn = (chrpc_poll_channel impl ele server).1 }) in
          omega (
            arith,
            id,
            worked_as-append i before (polled ele ∷ after),
            worked_as-append i before (served (worker_serve impl ele now server).0 ∷ after),
          ) in
      record {
        models = ok.models;
        counted = omega (arith, ok.counted);
        bounded = ok.bounded;
        counter = ok.counter;
        unique = λ i. omega (arith, ok.unique i, same i);
        fresh = λ i h. omega (arith, ok.fresh i h, same i);
      }

  pub returns-SystemOk :
      (server : Server S C) (before after : List (Turn C)) (xs : List (QueueEle C))
      (verdict : Bool × QueueEle C)
      → SystemOk record { server = server; turns = before ++ served verdict ∷ after } xs
      → (ys : List (QueueEle C)) × SystemOk
          record { server = worker_return verdict server; turns = before ++ after }
          ys
  unfolding worker_return
  returns-SystemOk server before after xs (true, ele) ok =
      let split = length-append before (served (true, ele) ∷ after) in
      let joined = length-append before after in
      let small = ok.models.small in
      (
        xs,
        record {
          models = ok.models;
          counted = omega (arith, ok.counted, ok.bounded);
          bounded = omega (arith, ok.counted, ok.bounded);
          counter = ok.counter;
          unique = λ i. omega (
            arith,
            ok.unique i,
            worked_as-append i before (served (true, ele) ∷ after),
            worked_as-append i before after,
          );
          fresh = λ i h. omega (
            arith,
            ok.fresh i h,
            worked_as-append i before (served (true, ele) ∷ after),
            worked_as-append i before after,
          );
        },
      )
  returns-SystemOk server before after xs (false, ele) ok =
      let split = length-append before (served (false, ele) ∷ after) in
      let joined = length-append before after in
      let (st, m, cap) = pushed ele ok.models (omega (arith, ok.counted, ok.bounded)) in
      (
        xs ++ ele ∷ [],
        record {
          models = m;
          counted = omega (arith, ok.counted, length-append xs (ele ∷ []));
          bounded = omega (arith, ok.bounded, cap);
          counter = ok.counter;
          unique = λ i. omega (
            arith,
            ok.unique i,
            queued_as-append i xs (ele ∷ []),
            worked_as-append i before (served (false, ele) ∷ after),
            worked_as-append i before after,
          );
          fresh = λ i h. omega (
            arith,
            ok.fresh i h,
            queued_as-append i xs (ele ∷ []),
            worked_as-append i before (served (false, ele) ∷ after),
            worked_as-append i before after,
          );
        },
      )
