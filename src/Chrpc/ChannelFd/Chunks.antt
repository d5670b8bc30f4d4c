-- ===== src/Chrpc/ChannelFd/Chunks.antt =====
-- The loops of `chn_fd_refresh`: over a chunk, and over the chunks that `read` returns.
use mathlib.Core.List.{flatten, map}
use chlibs.Common.{
  ℕ, zero, suc, ◌<◌, ◌≡◌, refl, sym, ◌∙◌, ap, subst, ◌⊎◌, some, List, [], ◌∷◌, arith, length, ◌==◌,
  Bool-cases, inl, inr, ==→eq, not-==→ne,
}
use chlibs.Chrpc.ChannelFd.{
  ChannelFd, start_magic, find_start, read_loop, then_loop, got, read_header, process_single_msg,
  process_chunk, chunk_fuel,
}
use chlibs.Chrpc.ChannelFd.Feed.{
  feed, feed_all, feed_all-append, feed-Framing, Framing, Framing-short, with, feed_all-find_start,
}
use chlibs.Chrpc.ChannelFd.Rounds.{rounds, Runs, Runs-read_header}

-- What the search finds: nothing, or the starting value and fewer bytes.
find_start-cases :
    (xs : List ℕ)
    → (find_start xs ≡ ([], []))
      ⊎ ((left : List ℕ) × (find_start xs ≡ (start_magic ∷ [], left)) × (length left < length xs))
unfolding find_start
find_start-cases [] = inl refl
find_start-cases (x ∷ xs) = elim (Bool-cases (x == start_magic)) [
  | inl e ↦ inr (xs, rw e refl, omega arith)
  | inr e ↦ rw e (elim (find_start-cases xs) [
    | inl h ↦ inl h
    | inr (left, h, lt) ↦ inr (left, h, omega arith)
  ])
]

-- The result of the search at an empty buffer, and what the round goes on to do.
Runs-found :
    (c : ChannelFd) (xs left : List ℕ)
    → find_start xs ≡ (start_magic ∷ [], left)
    → length left < length xs
    → Runs (with c []) xs (read_header c (start_magic ∷ []) left)
unfolding read_header feed_all
Runs-found c xs [] h lt = record {
  same = sym (feed_all-find_start c xs ∙ ap (λ t. feed_all (with c t.0) t.1) h);
  framed = Framing-short _ _ (omega arith);
  kept = refl;
  fewer = omega arith;
}
Runs-found c xs (y ∷ ys) h lt =
    let r =
      Runs-read_header c (start_magic ∷ []) y ys (omega arith) (Framing-short _ _ (omega arith)) in
    record {
      same = r.same ∙ sym (feed_all-find_start c xs ∙ ap (λ t. feed_all (with c t.0) t.1) h);
      framed = r.framed;
      kept = r.kept;
      fewer = omega (arith, r.fewer);
    }

Runs-idle :
    (c : ChannelFd) (xs : List ℕ)
    → 0 < length xs
    → Runs (with c []) xs (read_header c (find_start xs).0 (find_start xs).1)
unfolding read_header feed_all
Runs-idle c xs pos = elim (find_start-cases xs) [
  | inr (left, h, lt) ↦ rw h (Runs-found c xs left h lt)
  | inl h ↦ rw h (record {
    same = sym (feed_all-find_start c xs ∙ ap (λ t. feed_all (with c t.0) t.1) h);
    framed = Framing-short _ _ (omega arith);
    kept = refl;
    fewer = omega arith;
  })
]

length-eq_zero {ℓ} : {A : Type ℓ} (xs : List A) → length xs ≡ 0 → xs ≡ []
length-eq_zero [] e = refl
length-eq_zero (x ∷ xs) e = absurd (omega arith)

Runs-process :
    (c : ChannelFd) (b : ℕ) (rest : List ℕ)
    → Framing c.cfg.max_msg_size c.msg_buf
    → Runs c (b ∷ rest) (process_single_msg c (b ∷ rest))
unfolding process_single_msg
Runs-process c b rest f = elim (Bool-cases (length c.msg_buf == 0)) [
  | inr busy ↦ rw busy (Runs-read_header c c.msg_buf b rest (omega (arith, not-==→ne _ _ busy)) f)
  | inl idle ↦ rw idle (
      subst
        (λ m.
          Runs (with c m) (b ∷ rest)
            (read_header c (find_start (b ∷ rest)).0 (find_start (b ∷ rest)).1))
        (sym (length-eq_zero c.msg_buf (==→eq _ _ idle))) (Runs-idle c (b ∷ rest) (omega arith)))
]

-- The loop over a chunk ends, and leaves what feeding its bytes one by one leaves.
process_chunk-feed_all_fuel :
    (fuel : ℕ) (c : ChannelFd) (chunk : List ℕ)
    → rounds c chunk < fuel
    → Framing c.cfg.max_msg_size c.msg_buf
    → process_chunk fuel c chunk ≡ some (feed_all c chunk)
unfolding process_chunk feed_all
process_chunk-feed_all_fuel zero c chunk lt f = absurd (omega arith)
process_chunk-feed_all_fuel (suc fuel) c [] lt f = refl
process_chunk-feed_all_fuel (suc fuel) c (b ∷ rest) lt f =
    let r = Runs-process c b rest f in
    process_chunk-feed_all_fuel fuel (process_single_msg c (b ∷ rest)).0
      (process_single_msg c (b ∷ rest)).1 (omega (arith, r.fewer))
      (subst (λ g. Framing g.max_msg_size (process_single_msg c (b ∷ rest)).0.msg_buf) (sym r.kept)
        r.framed)
    ∙ ap some r.same

rounds-lt : (c : ChannelFd) (chunk : List ℕ) → rounds c chunk < chunk_fuel chunk
rounds-lt c chunk = ground arith

-- The loop over one chunk ends within its fuel, and leaves what the automaton leaves after its
-- bytes, from a buffer that frames a message.
pub process_chunk-feed_all :
    (c : ChannelFd) (chunk : List ℕ)
    → Framing c.cfg.max_msg_size c.msg_buf
    → process_chunk (chunk_fuel chunk) c chunk ≡ some (feed_all c chunk)
process_chunk-feed_all c chunk f =
    process_chunk-feed_all_fuel (chunk_fuel chunk) c chunk (rounds-lt c chunk) f

pub feed_all-Framing :
    (c : ChannelFd) (bytes : List ℕ)
    → Framing c.cfg.max_msg_size c.msg_buf
    → Framing c.cfg.max_msg_size (feed_all c bytes).msg_buf × ((feed_all c bytes).cfg ≡ c.cfg)
unfolding feed_all
feed_all-Framing c [] f = (f, refl)
feed_all-Framing c (b ∷ rest) f =
    let (g, kept) = feed-Framing c b f in
    let (g', kept') =
      feed_all-Framing (feed c b) rest
        (subst (λ k. Framing k.max_msg_size (feed c b).msg_buf) (sym kept) g) in
    (subst (λ k. Framing k.max_msg_size (feed_all (feed c b) rest).msg_buf) kept g', kept' ∙ kept)

-- From a buffer that frames a message, the loop of reads ends, and leaves what an automaton leaves
-- that takes the bytes of the chunks one at a time, so the cuts do not matter.
pub read_loop-feed_all :
    (c : ChannelFd) (chunks : List (List ℕ))
    → Framing c.cfg.max_msg_size c.msg_buf
    → read_loop c (map got chunks) ≡ some (feed_all c (flatten chunks))
unfolding read_loop flatten feed_all
read_loop-feed_all c [] f = refl
read_loop-feed_all c (chunk ∷ chunks) f =
    let (g, kept) = feed_all-Framing c chunk f in
    ap (λ t. then_loop t (λ d. read_loop d (map got chunks))) (process_chunk-feed_all c chunk f)
    ∙ read_loop-feed_all (feed_all c chunk) chunks
        (subst (λ k. Framing k.max_msg_size (feed_all c chunk).msg_buf) (sym kept) g)
    ∙ ap some (sym (feed_all-append c chunk (flatten chunks)))
