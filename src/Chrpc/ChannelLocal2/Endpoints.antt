-- ===== src/Chrpc/ChannelLocal2/Endpoints.antt =====
-- The two endpoints of a core are two mailboxes, one for each direction.
use chlibs.Common.{
  ◌≤◌, ◌<◌, ◌^◌, ◌≡◌, refl, ap, ap₂, Bool, true, false, none, some, List, [], ◌∷◌, ◌++◌, length,
  map,
}
use chlibs.Chrpc.Channel.{chn_success, ChannelMsg, ChannelImpl}
use chlibs.Chrpc.Channel.Mailbox.{
  stored, Limits, Mailbox, mailbox_send, mailbox_incoming_len, mailbox_receive,
}
use chlibs.Chrpc.Channel.Clients.{
  Call, Reply, max_msg_size, send, refresh, incoming_len, receive, received,
}
use chlibs.Chrpc.ChannelLocal.{ChannelLocalConfig, chn_l_max_msg_size, chn_l_refresh}
use chlibs.Chrpc.ChannelLocal.Holds.{
  limits, Holds, chn_l_send-Agrees, chn_l_incoming_len-eq, chn_l_receive-Agrees,
}
use chlibs.Chrpc.ChannelLocal.Lifetime.{new_channel_local-Holds, delete_channel_local-frees}
use chlibs.Chrpc.ChannelLocal2.{
  ChannelLocal2Core, channel_local2_impl, chn_l2_max_msg_size, chn_l2_send, chn_l2_refresh,
  chn_l2_incoming_len, chn_l2_receive, new_channel_local2_core, delete_channel_local2_core,
}

-- A call of one endpoint: its direction and the call.
abbrev pub EndCall : Type 0
EndCall = Bool × Call

abbrev pub AllBacked2 : List EndCall → Type 0
AllBacked2 [] = Unit {0}
AllBacked2 ((dir, send msg len) ∷ calls) = (len ≤ length msg) × AllBacked2 calls
AllBacked2 (call ∷ calls) = AllBacked2 calls

-- The replies to the calls of two endpoints with the state `C`, in the order of the calls.
unfoldable pub run_ends : {C : Type 0} → (Bool → ChannelImpl C) → C → List EndCall → List Reply
run_ends impl c [] = []
run_ends impl c ((dir, max_msg_size) ∷ calls) =
    let (st, n) = (impl dir).max_msg_size c in (st, none, some n) ∷ run_ends impl c calls
run_ends impl c ((dir, send msg len) ∷ calls) =
    let (st, d) = (impl dir).send c msg len in (st, none, none) ∷ run_ends impl d calls
run_ends impl c ((dir, refresh) ∷ calls) =
    let (st, d) = (impl dir).refresh c in (st, none, none) ∷ run_ends impl d calls
run_ends impl c ((dir, incoming_len) ∷ calls) =
    let (st, n) = (impl dir).incoming_len c in (st, none, n) ∷ run_ends impl c calls
run_ends impl c ((dir, receive len) ∷ calls) =
    let (st, out, d) = (impl dir).receive c len in received st out ∷ run_ends impl d calls

-- The mailboxes from a to b and from b to a.
pub record Pair : Type 0 where
  pub to_b : Mailbox
  pub to_a : Mailbox

-- An endpoint sends to the other's mailbox and receives from its own.
abbrev pub pair_impl : Limits → Bool → ChannelImpl Pair
pair_impl l true = record {
  max_msg_size = λ p. (chn_success, l.max_size);
  send = λ p msg len. let (st, ms) = mailbox_send l p.to_b msg len in (st, record p { to_b = ms });
  refresh = λ p. (chn_success, p);
  incoming_len = λ p. mailbox_incoming_len p.to_a;
  receive =
      λ p len. let (st, out, ms) = mailbox_receive p.to_a len in (st, out, record p { to_a = ms });
}
pair_impl l false = record {
  max_msg_size = λ p. (chn_success, l.max_size);
  send = λ p msg len. let (st, ms) = mailbox_send l p.to_a msg len in (st, record p { to_a = ms });
  refresh = λ p. (chn_success, p);
  incoming_len = λ p. mailbox_incoming_len p.to_b;
  receive =
      λ p len. let (st, out, ms) = mailbox_receive p.to_b len in (st, out, record p { to_b = ms });
}

-- Each channel of the core holds the mailbox of its direction.
pub record Holds2 (l : Limits) (core : ChannelLocal2Core) (p : Pair) : Type 0 where
  pub a2b : Holds l core.a2b p.to_b
  pub b2a : Holds l core.b2a p.to_a

-- No interleaving of the calls of two endpoints tells their core from two mailboxes, one for each
-- direction, if every send has the bytes that it names.
pub run_ends-pair :
    (l : Limits) (calls : List EndCall) (core : ChannelLocal2Core) (p : Pair)
    → Holds2 l core p
    → AllBacked2 calls
    → run_ends channel_local2_impl core calls ≡ run_ends (pair_impl l) p calls
unfolding run_ends chn_l2_max_msg_size chn_l2_send chn_l2_refresh chn_l2_incoming_len chn_l2_receive
    chn_l_max_msg_size chn_l_refresh
run_ends-pair l [] core p v b = refl
run_ends-pair l ((true, max_msg_size) ∷ calls) core p v b =
    ap₂ (λ n t. (chn_success, none, some n) ∷ t) v.a2b.largest (run_ends-pair l calls core p v b)
run_ends-pair l ((false, max_msg_size) ∷ calls) core p v b =
    ap₂ (λ n t. (chn_success, none, some n) ∷ t) v.a2b.largest (run_ends-pair l calls core p v b)
run_ends-pair l ((true, send msg len) ∷ calls) core p v b =
    let s = chn_l_send-Agrees l core.a2b msg len p.to_b v.a2b b.0 in
    ap₂ (λ st t. (st, none, none) ∷ t) s.status
      (run_ends-pair l calls _ _ (record { a2b = s.left; b2a = v.b2a }) b.1)
run_ends-pair l ((false, send msg len) ∷ calls) core p v b =
    let s = chn_l_send-Agrees l core.b2a msg len p.to_a v.b2a b.0 in
    ap₂ (λ st t. (st, none, none) ∷ t) s.status
      (run_ends-pair l calls _ _ (record { a2b = v.a2b; b2a = s.left }) b.1)
run_ends-pair l ((true, refresh) ∷ calls) core p v b =
    ap (λ t. (chn_success, none, none) ∷ t) (run_ends-pair l calls core p v b)
run_ends-pair l ((false, refresh) ∷ calls) core p v b =
    ap (λ t. (chn_success, none, none) ∷ t) (run_ends-pair l calls core p v b)
run_ends-pair l ((true, incoming_len) ∷ calls) core p v b =
    ap₂ (λ r t. (r.0, none, r.1) ∷ t) (chn_l_incoming_len-eq l core.b2a p.to_a v.b2a)
      (run_ends-pair l calls core p v b)
run_ends-pair l ((false, incoming_len) ∷ calls) core p v b =
    ap₂ (λ r t. (r.0, none, r.1) ∷ t) (chn_l_incoming_len-eq l core.a2b p.to_b v.a2b)
      (run_ends-pair l calls core p v b)
run_ends-pair l ((true, receive len) ∷ calls) core p v b =
    let s = chn_l_receive-Agrees l core.b2a p.to_a len v.b2a in
    ap₂ ◌∷◌ (ap₂ received s.status s.out)
      (run_ends-pair l calls _ _ (record { a2b = v.a2b; b2a = s.left }) b)
run_ends-pair l ((false, receive len) ∷ calls) core p v b =
    let s = chn_l_receive-Agrees l core.a2b p.to_b len v.a2b in
    ap₂ ◌∷◌ (ap₂ received s.status s.out)
      (run_ends-pair l calls _ _ (record { a2b = s.left; b2a = v.b2a }) b)

-- A configuration of a depth from 1 to 2 ^ 63, with two mutexes and two queue tables of its depth,
-- makes a core with two empty mailboxes.
pub new_channel_local2_core-Holds2 :
    (cfg : ChannelLocalConfig) (table table' : List ChannelMsg)
    → length table ≡ cfg.queue_depth
    → length table' ≡ cfg.queue_depth
    → cfg.queue_depth ≤ 2 ^ 63
    → 0 < cfg.queue_depth
    → (core : ChannelLocal2Core) × (new_channel_local2_core (some cfg) false false table table'
        ≡ (chn_success, some core))
      × Holds2 (limits cfg) core (record { to_b = []; to_a = [] })
unfolding new_channel_local2_core
new_channel_local2_core-Holds2 cfg table table' h h' small pos =
    let (c, made, v) = new_channel_local-Holds cfg table h small pos in
    let (d, made', v') = new_channel_local-Holds cfg table' h' small pos in
    (record { a2b = c; b2a = d }, rw (made, made') refl, record { a2b = v; b2a = v' })

-- Destroying a well-formed core frees the buffers of the messages of both directions, once and in
-- order.
pub delete_channel_local2_core-frees :
    (l : Limits) (core : ChannelLocal2Core) (p : Pair)
    → Holds2 l core p
    → delete_channel_local2_core (some core)
      ≡ (chn_success, map (λ m. some (stored m)) p.to_b ++ map (λ m. some (stored m)) p.to_a)
unfolding delete_channel_local2_core
delete_channel_local2_core-frees l core p v =
    rw
      (
        delete_channel_local-frees core.a2b p.to_b v.a2b,
        delete_channel_local-frees core.b2a p.to_a v.b2a,
      )
      refl
