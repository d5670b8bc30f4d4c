-- ===== src/Chrpc/ChannelFd/Rounds.antt =====
-- One round of `_chn_fd_process_single_msg` at a buffer that holds the start of a message: the runs of
-- bytes that it copies, against the automaton that takes them one by one.
use chlibs.Common.{
  ℕ, ◌+◌, ◌-◌, ◌*◌, ◌≤◌, ◌<◌, ◌≡◌, refl, sym, ◌∙◌, ap, Bool, subst, true, false, List, [], ◌∷◌,
  ◌++◌, arith, length, take, drop, take-append-drop, length-append, append-nil, length-take,
  length-drop, ltb, ◌==◌, if◌then◌else◌, Bool-cases, inl, inr, ltb→lt, not-ltb, lt→ltb, ne→not-==,
}
use chlibs.Chrpc.ChannelFd.{
  ChannelFd, end_magic, header_size, msg_size_of, msg_length, read_end, read_data, read_header,
}
use chlibs.Chrpc.ChannelFd.Bytes.{msg_length-append}
use chlibs.Chrpc.ChannelFd.Feed.{
  feed_all, Framing, Framing-short, Framing-le, complete-kept, with, feed_end, feed_oversize,
  feed_all-header, feed_all-data,
}

if_true {ℓ} : {A : Type ℓ} {b : Bool} (x y : A) → b ≡ true → (if b then x else y) ≡ x
if_true x y e = rw e

if_false {ℓ} : {A : Type ℓ} {b : Bool} (x y : A) → b ≡ false → (if b then x else y) ≡ y
if_false x y e = rw e

-- The rounds that a loop over `left` may still need.
abbrev pub rounds : ChannelFd → List ℕ → ℕ
rounds c left = 2 * length left + (if length c.msg_buf == 0 then 0 else 1)

-- A round that left `out` has done what the bytes that it consumed do one by one.
pub record Runs (c : ChannelFd) (left : List ℕ) (out : ChannelFd × List ℕ) : Type 0 where
  pub same : feed_all out.0 out.1 ≡ feed_all c left
  pub framed : Framing c.cfg.max_msg_size out.0.msg_buf
  pub kept : out.0.cfg ≡ c.cfg
  pub fewer : rounds out.0 out.1 < rounds c left

module _ (c : ChannelFd) where
  Runs-read_end :
      (buf : List ℕ) (b : ℕ) (rest : List ℕ)
      → msg_length buf ≤ c.cfg.max_msg_size
      → length buf ≡ header_size + msg_length buf
      → Runs (with c buf) (b ∷ rest) (read_end c buf (msg_length buf) (b ∷ rest))
  unfolding read_end feed_all
  Runs-read_end buf b rest small e =
      let (cleared, kept) = complete-kept c (buf ++ (end_magic ∷ [])) (msg_length buf) in
      let fed = feed_end c buf b small e in
      let busy = ne→not-== (length buf) 0 (omega arith) in
      rw (lt→ltb (length buf) (msg_size_of (msg_length buf)) (omega arith))
        (elim (Bool-cases (b == end_magic)) [
          | inl yes_end ↦ rw yes_end (record {
            same = ap (λ d. feed_all d rest) (sym (fed ∙ if_true _ _ yes_end));
            framed = rw cleared (Framing-short _ [] (omega arith));
            kept = kept;
            fewer = rw (cleared, busy) (omega arith);
          })
          | inr no_end ↦ rw no_end (record {
            same = ap (λ d. feed_all d rest) (sym (fed ∙ if_false _ _ no_end));
            framed = Framing-short _ [] (omega arith);
            kept = refl;
            fewer = rw busy (omega arith);
          })
        ])

  -- The bytes `took` were copied behind the buffer, and a later part of the round left `out`.
  Runs-after :
      (buf took left : List ℕ) (out : ChannelFd × List ℕ)
      → 0 < length buf
      → feed_all (with c buf) (took ++ left) ≡ feed_all (with c (buf ++ took)) left
      → Runs (with c (buf ++ took)) left out
      → Runs (with c buf) (took ++ left) out
  Runs-after buf took left out pos e r =
      let longer = length-append buf took in
      let more = length-append took left in
      let less = r.fewer in
      record {
        same = r.same ∙ sym e;
        framed = r.framed;
        kept = r.kept;
        fewer =
            rw (ne→not-== (length buf) 0 (omega arith))
              (omega (arith, rw (ne→not-== (length (buf ++ took)) 0 (omega arith)) at less));
      }

  -- The chunk ended with the bytes `took`.
  Runs-stop :
      (buf took : List ℕ)
      → 0 < length buf
      → 0 < length took
      → feed_all (with c buf) (took ++ []) ≡ feed_all (with c (buf ++ took)) []
      → Framing c.cfg.max_msg_size (buf ++ took)
      → Runs (with c buf) (took ++ []) (with c (buf ++ took), [])
  Runs-stop buf took pos some_bytes e f =
      let longer = length-append buf took in
      let more = length-append took [] in
      record {
        same = sym e;
        framed = f;
        kept = refl;
        fewer =
            rw
              (
                ne→not-== (length buf) 0 (omega arith),
                ne→not-== (length (buf ++ took)) 0 (omega arith),
              )
              (omega arith);
      }

  Runs-copy_data :
      (buf took left : List ℕ)
      → header_size ≤ length buf
      → msg_length buf ≤ c.cfg.max_msg_size
      → length buf + length took ≤ header_size + msg_length buf
      → ((0 < length left) → length buf + length took ≡ header_size + msg_length buf)
      → 0 < length took + length left
      → Runs (with c buf) (took ++ left) (read_end c (buf ++ took) (msg_length buf) left)
  unfolding read_end
  Runs-copy_data buf took [] le small fits full some_bytes =
      let same = msg_length-append buf took le in
      let longer = length-append buf took in
      Runs-stop buf took (omega arith) (omega arith) (feed_all-data c buf took [] le small fits)
        (record { within = λ l. (omega arith, omega arith) })
  Runs-copy_data buf took (b ∷ rest) le small fits full some_bytes =
      let same = msg_length-append buf took le in
      let longer = length-append buf took in
      Runs-after buf took (b ∷ rest) _ (omega arith)
        (feed_all-data c buf took (b ∷ rest) le small fits)
        (subst (λ n. Runs (with c (buf ++ took)) (b ∷ rest) (read_end c (buf ++ took) n (b ∷ rest)))
          same
          (Runs-read_end (buf ++ took) b rest (omega arith) (omega (arith, full (omega arith)))))

  Runs-read_data :
      (buf : List ℕ) (b : ℕ) (rest : List ℕ)
      → header_size ≤ length buf
      → Framing c.cfg.max_msg_size buf
      → Runs (with c buf) (b ∷ rest) (read_data c buf (b ∷ rest))
  unfolding read_data feed_all
  Runs-read_data buf b rest le f = elim (Bool-cases (ltb c.cfg.max_msg_size (msg_length buf))) [
    | inl large ↦ rw large (record {
      same = ap (λ d. feed_all d rest) (sym (feed_oversize c buf b le (ltb→lt _ _ large)));
      framed = Framing-short _ [] (omega arith);
      kept = refl;
      fewer = rw (ne→not-== (length buf) 0 (omega arith)) (omega arith);
    })
    | inr small ↦
        let needed = header_size + msg_length buf - length buf in
        let took = length-take needed (b ∷ rest) in
        let left = length-drop needed (b ∷ rest) in
        rw small (
          subst
            (λ t. Runs (with c buf) t (
              read_end c (buf ++ take needed (b ∷ rest)) (msg_length buf) (drop needed (b ∷ rest))))
            (take-append-drop needed (b ∷ rest))
            (Runs-copy_data buf (take needed (b ∷ rest)) (drop needed (b ∷ rest)) le
              (not-ltb _ _ small) (omega (arith, Framing-le f le))
              (λ h. omega (arith, Framing-le f le)) (omega arith)))
  ]

  Runs-copy_header :
      (buf took left : List ℕ)
      → 0 < length buf
      → Framing c.cfg.max_msg_size buf
      → (0 < length took → length buf + length took ≤ header_size)
      → (0 < length left → header_size ≤ length buf + length took)
      → 0 < length took + length left
      → Runs (with c buf) (took ++ left) (read_data c (buf ++ took) left)
  unfolding read_data
  Runs-copy_header buf [] [] pos f short full some_bytes = absurd (omega arith)
  Runs-copy_header buf [] (b ∷ rest) pos f short full some_bytes =
      subst (λ t. Runs (with c buf) (b ∷ rest) (read_data c t (b ∷ rest))) (sym (append-nil buf))
        (Runs-read_data buf b rest (omega (arith, full (omega arith))) f)
  Runs-copy_header buf (x ∷ xs) [] pos f short full some_bytes =
      let fits = short (omega arith) in
      Runs-stop buf (x ∷ xs) pos (omega arith) (feed_all-header c buf (x ∷ xs) [] pos fits)
        (Framing-short _ _ (omega (arith, length-append buf (x ∷ xs))))
  Runs-copy_header buf (x ∷ xs) (b ∷ rest) pos f short full some_bytes =
      let fits = short (omega arith) in
      let longer = length-append buf (x ∷ xs) in
      Runs-after buf (x ∷ xs) (b ∷ rest) _ pos (feed_all-header c buf (x ∷ xs) (b ∷ rest) pos fits)
        (Runs-read_data (buf ++ (x ∷ xs)) b rest (omega (arith, full (omega arith)))
          (Framing-short _ _ (omega arith)))

  pub Runs-read_header :
      (buf : List ℕ) (b : ℕ) (rest : List ℕ)
      → 0 < length buf
      → Framing c.cfg.max_msg_size buf
      → Runs (with c buf) (b ∷ rest) (read_header c buf (b ∷ rest))
  unfolding read_header
  Runs-read_header buf b rest pos f =
      let needed = header_size - length buf in
      let took = length-take needed (b ∷ rest) in
      let left = length-drop needed (b ∷ rest) in
      subst
        (λ t.
          Runs (with c buf) t
            (read_data c (buf ++ take needed (b ∷ rest)) (drop needed (b ∷ rest))))
        (take-append-drop needed (b ∷ rest))
        (Runs-copy_header buf (take needed (b ∷ rest)) (drop needed (b ∷ rest)) pos f
          (λ h. omega arith) (λ h. omega arith) (omega arith))
