-- ===== src/Chrpc/ChannelFd/Lifetime.antt =====
-- The construction and the destruction of a channel over descriptors.
use chlibs.Common.{
  subst, Bool, true, ◌||◌, ◌==◌, ◌↔◌, Option, none, if◌then◌else◌, not-==→ne, suc, ℕ, ◌^◌, ◌≤◌, ◌<◌,
  ◌≡◌, refl, ap, false, some, List, [], ◌++◌, map, arith, length, ne→not-==,
}
use chlibs.Chutil.Queue.{Queue, new_queue, q_len}
use chlibs.Chutil.Queue.Models.{new_queue-Models}
use chlibs.Chrpc.Channel.{Status, chn_success, chn_invalid_args, chn_unknown_error, ChannelMsg}
use chlibs.Chrpc.Channel.Mailbox.{stored, length-map-stored, Limits, Mailbox}
use chlibs.Chrpc.ChannelLocal.Lifetime.{drain-eq}
use chlibs.Chrpc.ChannelFd.{
  opened, delete_channel_fd, ChannelFd, ChannelFdConfig, Setup, choose_read_fd, new_channel_fd,
}
use chlibs.Chrpc.ChannelFd.Feed.{Framing-short}
use chlibs.Chrpc.ChannelFd.Holds.{Holds}

-- The descriptor that is read: the given one, or the duplicate of the written one if none is given.
abbrev pub ReadsFrom : Option ℕ → Option ℕ → ℕ → Type 0
ReadsFrom (some fd) duplicate rfd = fd ≡ rfd
ReadsFrom none duplicate rfd = duplicate ≡ some rfd

-- A legal configuration and system calls that succeed, with the descriptors of the channel.
pub record Opens (cfg : ChannelFdConfig) (env : Setup) (wfd rfd : ℕ) : Type 0 where
  pub size : 0 < cfg.max_msg_size
  pub depth : 0 < cfg.queue_depth
  pub chunk : 0 < cfg.read_chunk_size
  pub written : cfg.write_fd ≡ some wfd
  pub mutex : env.mutex_failed ≡ false
  pub flags : env.setup_failed ≡ false
  pub reads : ReadsFrom cfg.read_fd env.duplicate rfd

chosen :
    (given duplicate : Option ℕ) (rfd : ℕ)
    → ReadsFrom given duplicate rfd
    → elim given as (λ _. Option ℕ) [ none ↦ duplicate | some fd ↦ some fd ] ≡ some rfd
chosen (some fd) duplicate rfd e = ap some e
chosen none duplicate rfd e = e

-- the tests of the constructor; `made` is what it returns behind them
abbrev tested :
    (a b d m s : Bool) (w given duplicate : Option ℕ) (made : ℕ → Status × Option ChannelFd)
    → Status × Option ChannelFd
tested a b d m s w given duplicate made =
    if a || b || (elim w as (λ _. Bool) [ none ↦ true | some fd ↦ false ]) || d
    then (chn_invalid_args, none)
    else if m
    then (chn_unknown_error, none)
    else elim (elim given as (λ _. Option ℕ) [ none ↦ duplicate | some fd ↦ some fd ]) [
      | none ↦ (chn_unknown_error, none)
      | some fd ↦ if s then (chn_unknown_error, none) else made fd
    ]

success_opens :
    (a b d m s : Bool) (w given duplicate : Option ℕ) (made : ℕ → Status × Option ChannelFd)
    (c : ChannelFd)
    → tested a b d m s w given duplicate made ≡ (chn_success, some c)
    → (wfd : ℕ) × (rfd : ℕ) × (a ≡ false)
      × (b ≡ false)
      × (d ≡ false)
      × (w ≡ some wfd)
      × (m ≡ false)
      × (s ≡ false)
      × ReadsFrom given duplicate rfd
success_opens true b d m s w given duplicate made c e = cc
success_opens false true d m s w given duplicate made c e = cc
success_opens false false d m s none given duplicate made c e = cc
success_opens false false true m s (some wfd) given duplicate made c e = cc
success_opens false false false true s (some wfd) given duplicate made c e = cc
success_opens false false false false s (some wfd) none none made c e = cc
success_opens false false false false true (some wfd) (some fd) duplicate made c e = cc
success_opens false false false false true (some wfd) none (some fd) made c e = cc
success_opens false false false false false (some wfd) (some fd) duplicate made c e =
    (wfd, fd, refl, refl, refl, refl, refl, refl, refl)
success_opens false false false false false (some wfd) none (some fd) made c e =
    (wfd, fd, refl, refl, refl, refl, refl, refl, refl)

makes_channel :
    (cfg : ChannelFdConfig) (wfd rfd : ℕ) (env : Setup) (table : List ChannelMsg)
    → 0 < cfg.max_msg_size
    → 0 < cfg.queue_depth
    → 0 < cfg.read_chunk_size
    → cfg.write_fd ≡ some wfd
    → env.mutex_failed ≡ false
    → env.setup_failed ≡ false
    → choose_read_fd cfg env ≡ some rfd
    → length table ≡ cfg.queue_depth
    → cfg.queue_depth ≤ 2 ^ 63
    → (c : ChannelFd) × (new_channel_fd (some cfg) env table ≡ (chn_success, some c))
      × (c.read_fd ≡ some rfd)
      × (c.write_fd ≡ some wfd)
      × (c.msg_buf ≡ [])
      × Holds
          (record {
            depth = cfg.queue_depth;
            write_over = cfg.write_over;
            max_size = cfg.max_msg_size;
          })
          c
          []
unfolding new_channel_fd new_queue
makes_channel cfg wfd rfd env table size depth chunk write mutex setup read h small =
    let q : Queue ChannelMsg = record {
      cap = cfg.queue_depth;
      len = 0;
      cell_size = 16;
      i = 0;
      table = table;
    } in
    let some_depth = ne→not-== cfg.queue_depth 0 (omega arith) in
    (
      record { cfg = cfg; read_fd = some rfd; write_fd = some wfd; msg_buf = []; q = q },
      simp (
        ne→not-== cfg.max_msg_size 0 (omega arith),
        some_depth,
        ne→not-== cfg.read_chunk_size 0 (omega arith),
        write,
        mutex,
        setup,
        read,
      ),
      refl,
      refl,
      refl,
      record {
        over = refl;
        largest = refl;
        depth = refl;
        queued = ((new_queue-Models cfg.queue_depth 16 table h small).1 q (rw some_depth refl)).0;
        sized = tt;
        framed = Framing-short _ _ (omega arith);
      },
    )

-- The limits of a mailbox, as configured.
abbrev pub limits : ChannelFdConfig → Limits
limits cfg = record {
  depth = cfg.queue_depth;
  write_over = cfg.write_over;
  max_size = cfg.max_msg_size;
}

-- A channel is made exactly of a configuration with a largest size, a depth, a chunk size that are
-- not 0 and a descriptor to write, with system calls that succeed; it reads the given descriptor,
-- or the duplicate if none is given, writes the one given to write, and holds no message and no
-- partial message; the queue table has the depth of the configuration, at most 2 ^ 63.
pub new_channel_fd_iff :
    (cfg : ChannelFdConfig) (env : Setup) (table : List ChannelMsg)
    → length table ≡ cfg.queue_depth
    → cfg.queue_depth ≤ 2 ^ 63
    → let made = new_channel_fd (some cfg) env table in
      (((c : ChannelFd) × (made ≡ (chn_success, some c)))
        ↔ ((wfd : ℕ) × (rfd : ℕ) × Opens cfg env wfd rfd))
      × ((c : ChannelFd) (wfd rfd : ℕ)
          → Opens cfg env wfd rfd
          → made ≡ (chn_success, some c)
          → (c.read_fd ≡ some rfd)
            × (c.write_fd ≡ some wfd)
            × (c.msg_buf ≡ [])
            × Holds (limits cfg) c [])
unfolding new_channel_fd
new_channel_fd_iff cfg env table h small =
    let make : (wfd rfd : ℕ)
        → Opens cfg env wfd rfd
        → (c : ChannelFd) × (new_channel_fd (some cfg) env table ≡ (chn_success, some c))
          × (c.read_fd ≡ some rfd)
          × (c.write_fd ≡ some wfd)
          × (c.msg_buf ≡ [])
          × Holds (limits cfg) c [] =
      λ wfd rfd o.
        makes_channel cfg wfd rfd env table o.size o.depth o.chunk o.written o.mutex o.flags
          (chosen cfg.read_fd env.duplicate rfd o.reads) h small in
    (
      (
        λ (c, e).
            let (wfd, rfd, a, b, d, w, m, s, r) =
              success_opens (cfg.max_msg_size == 0) (cfg.queue_depth == 0)
                (cfg.read_chunk_size == 0) env.mutex_failed env.setup_failed cfg.write_fd
                cfg.read_fd env.duplicate _ c e in
            (
              wfd,
              rfd,
              record {
                size = omega (arith, not-==→ne _ _ a);
                depth = omega (arith, not-==→ne _ _ b);
                chunk = omega (arith, not-==→ne _ _ d);
                written = w;
                mutex = m;
                flags = s;
                reads = r;
              },
            ),
        λ (wfd, rfd, o). let (c, e, r, w, b, v) = make wfd rfd o in (c, e),
      ),
      λ c wfd rfd o e.
          let (c', e', r, w, b, v) = make wfd rfd o in
          let same : c' ≡ c = cc (e, e') in
          subst
            (λ x.
              (x.read_fd ≡ some rfd)
              × (x.write_fd ≡ some wfd)
              × (x.msg_buf ≡ [])
              × Holds (limits cfg) x [])
            same (r, w, b, v),
    )

-- Destroying a well-formed channel over descriptors closes each open descriptor and frees the
-- buffer of each message that it holds, once and in order.
pub delete_channel_fd-frees :
    {l : Limits} (c : ChannelFd) (ms : Mailbox)
    → Holds l c ms
    → delete_channel_fd c
      ≡ (chn_success, opened c.read_fd ++ opened c.write_fd, map (λ m. some (stored m)) ms)
unfolding delete_channel_fd q_len
delete_channel_fd-frees c ms v =
    ap (λ t. (chn_success, opened c.read_fd ++ opened c.write_fd, t))
      (drain-eq (suc c.q.len) c.q ms v.queued (omega (arith, length-map-stored ms, v.queued.count)))
