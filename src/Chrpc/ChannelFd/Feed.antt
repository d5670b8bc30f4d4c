-- ===== src/Chrpc/ChannelFd/Feed.antt =====
-- A chunk is processed byte by byte: `_chn_fd_process_single_msg`, which copies runs of bytes, does
-- what an automaton does that takes one byte at a time. So it does not matter how `read` cuts a
-- stream into chunks.
use chlibs.Common.{
  ℕ, ◌+◌, ◌≤◌, ◌<◌, ◌≡◌, refl, ◌∙◌, ap, ◌⊎◌, true, false, List, [], ◌∷◌, ◌++◌, arith, length,
  length-append, append-nil, append_assoc, ltb, ◌==◌, if◌then◌else◌, Bool-cases, inl, inr, ltb→lt,
  not-ltb, lt→ltb, le→not-ltb, ne→not-==,
}
use chlibs.Chrpc.ChannelFd.{
  ChannelFd, start_magic, end_magic, header_size, msg_length, find_start, complete,
}
use chlibs.Chrpc.ChannelFd.Bytes.{msg_length-append}

-- A byte at an empty buffer.
abbrev pub feed_start : ChannelFd → ℕ → ChannelFd
feed_start c b = record c { msg_buf = if b == start_magic then start_magic ∷ [] else [] }

unfoldable pub feed : ChannelFd → ℕ → ChannelFd
feed c b =
    let buf = c.msg_buf in
    let len = msg_length buf in
    if length buf == 0
    then feed_start c b
    else if ltb (length buf) header_size
    then record c { msg_buf = buf ++ (b ∷ []) }
    else if ltb c.cfg.max_msg_size len
    then feed_start c b
    else if ltb (length buf) (header_size + len)
    then record c { msg_buf = buf ++ (b ∷ []) }
    else if b == end_magic
    then complete c (buf ++ (end_magic ∷ [])) len
    else record c { msg_buf = [] }

unfoldable pub feed_all : ChannelFd → List ℕ → ChannelFd
feed_all c [] = c
feed_all c (b ∷ rest) = feed_all (feed c b) rest

pub feed_all-append :
    (c : ChannelFd) (xs ys : List ℕ) → feed_all c (xs ++ ys) ≡ feed_all (feed_all c xs) ys
unfolding feed_all
feed_all-append c [] ys = refl
feed_all-append c (x ∷ xs) ys = feed_all-append (feed c x) xs ys

-- A buffer longer than a header holds a message of a legal size, and no more than its data.
pub record Framing (max_size : ℕ) (buf : List ℕ) : Type 0 where
  pub within :
      header_size < length buf
      → (msg_length buf ≤ max_size) × (length buf ≤ header_size + msg_length buf)

pub Framing-short : (m : ℕ) (buf : List ℕ) → length buf ≤ header_size → Framing m buf
Framing-short m buf h = record { within = λ l. absurd (omega arith) }

pub Framing-le :
    {m : ℕ} {buf : List ℕ}
    → Framing m buf
    → header_size ≤ length buf
    → length buf ≤ header_size + msg_length buf
Framing-le f h = ground arith

-- A completed message leaves the buffer empty and the configuration as it was.
pub complete-kept :
    (c : ChannelFd) (buf : List ℕ) (len : ℕ)
    → ((complete c buf len).msg_buf ≡ []) × ((complete c buf len).cfg ≡ c.cfg)
unfolding complete
complete-kept c buf len = ground arith

module _ (c : ChannelFd) where
  abbrev pub with : List ℕ → ChannelFd
  with buf = record c { msg_buf = buf }

  pub feed_header :
      (buf : List ℕ) (b : ℕ)
      → 0 < length buf
      → length buf < header_size
      → feed (with buf) b ≡ with (buf ++ (b ∷ []))
  unfolding feed
  feed_header buf b pos lt =
      rw (ne→not-== (length buf) 0 (omega arith), lt→ltb (length buf) header_size lt)

  pub feed_data :
      (buf : List ℕ) (b : ℕ)
      → header_size ≤ length buf
      → msg_length buf ≤ c.cfg.max_msg_size
      → length buf < header_size + msg_length buf
      → feed (with buf) b ≡ with (buf ++ (b ∷ []))
  unfolding feed
  feed_data buf b le small lt = rw (
    ne→not-== (length buf) 0 (omega arith),
    le→not-ltb (length buf) header_size le,
    le→not-ltb c.cfg.max_msg_size (msg_length buf) small,
    lt→ltb (length buf) (header_size + msg_length buf) lt,
  )

  pub feed_end :
      (buf : List ℕ) (b : ℕ)
      → msg_length buf ≤ c.cfg.max_msg_size
      → length buf ≡ header_size + msg_length buf
      → feed (with buf) b ≡ (
          if b == end_magic
          then complete (with buf) (buf ++ (end_magic ∷ [])) (msg_length buf)
          else with [])
  unfolding feed
  feed_end buf b small e = rw (
    ne→not-== (length buf) 0 (omega arith),
    le→not-ltb (length buf) header_size (omega arith),
    le→not-ltb c.cfg.max_msg_size (msg_length buf) small,
    le→not-ltb (length buf) (header_size + msg_length buf) (omega arith),
  )

  pub feed_oversize :
      (buf : List ℕ) (b : ℕ)
      → header_size ≤ length buf
      → c.cfg.max_msg_size < msg_length buf
      → feed (with buf) b ≡ feed (with []) b
  unfolding feed
  feed_oversize buf b le large = rw (
    ne→not-== (length buf) 0 (omega arith),
    le→not-ltb (length buf) header_size le,
    lt→ltb c.cfg.max_msg_size (msg_length buf) large,
  )

  -- A run of bytes into the header.
  pub feed_all-header :
      (buf xs ys : List ℕ)
      → 0 < length buf
      → length buf + length xs ≤ header_size
      → feed_all (with buf) (xs ++ ys) ≡ feed_all (with (buf ++ xs)) ys
  unfolding feed_all
  feed_all-header buf [] ys pos le = rw (append-nil buf) refl
  feed_all-header buf (x ∷ xs) ys pos le =
      let longer = length-append buf (x ∷ []) in
      ap (λ d. feed_all d (xs ++ ys)) (feed_header buf x pos (omega arith))
      ∙ feed_all-header (buf ++ (x ∷ [])) xs ys (omega arith) (omega arith)
      ∙ ap (λ t. feed_all (with t) ys) (append_assoc buf (x ∷ []) xs)

  -- A run of bytes into the data.
  pub feed_all-data :
      (buf xs ys : List ℕ)
      → header_size ≤ length buf
      → msg_length buf ≤ c.cfg.max_msg_size
      → length buf + length xs ≤ header_size + msg_length buf
      → feed_all (with buf) (xs ++ ys) ≡ feed_all (with (buf ++ xs)) ys
  unfolding feed_all
  feed_all-data buf [] ys le small fits = rw (append-nil buf) refl
  feed_all-data buf (x ∷ xs) ys le small fits =
      let same = msg_length-append buf (x ∷ []) le in
      let longer = length-append buf (x ∷ []) in
      ap (λ d. feed_all d (xs ++ ys)) (feed_data buf x le small (omega arith))
      ∙ feed_all-data (buf ++ (x ∷ [])) xs ys (omega arith) (omega arith) (omega arith)
      ∙ ap (λ t. feed_all (with t) ys) (append_assoc buf (x ∷ []) xs)

  -- The search for the starting value.
  pub feed_all-find_start :
      (xs : List ℕ) → feed_all (with []) xs ≡ feed_all (with (find_start xs).0) (find_start xs).1
  unfolding feed_all find_start feed
  feed_all-find_start [] = refl
  feed_all-find_start (x ∷ xs) = elim (Bool-cases (x == start_magic)) [
    | inl e ↦ rw e refl
    | inr e ↦ rw e (feed_all-find_start xs)
  ]

Framing-one :
    (c : ChannelFd) (b : ℕ)
    → ltb (length c.msg_buf) header_size ≡ true
      ⊎ (ltb c.cfg.max_msg_size (msg_length c.msg_buf) ≡ false)
        × (ltb (length c.msg_buf) (header_size + msg_length c.msg_buf) ≡ true)
    → Framing c.cfg.max_msg_size (c.msg_buf ++ (b ∷ []))
Framing-one c b h =
    let longer = length-append c.msg_buf (b ∷ []) in
    elim (Bool-cases (ltb (length c.msg_buf) header_size)) [
      | inl short ↦ Framing-short _ _ (omega (arith, ltb→lt _ _ short))
      | inr long ↦
          let same = msg_length-append c.msg_buf (b ∷ []) (not-ltb _ _ long) in
          record { within = λ l. ground arith }
    ]

-- One byte keeps the framing and the configuration.
pub feed-Framing :
    (c : ChannelFd) (b : ℕ)
    → Framing c.cfg.max_msg_size c.msg_buf
    → Framing c.cfg.max_msg_size (feed c b).msg_buf × ((feed c b).cfg ≡ c.cfg)
unfolding feed
feed-Framing c b f =
    let (cleared, kept) = complete-kept c (c.msg_buf ++ (end_magic ∷ [])) (msg_length c.msg_buf) in
    ground (
      arith,
      cleared,
      kept,
      Framing-short c.cfg.max_msg_size [] (omega arith),
      Framing-short c.cfg.max_msg_size (start_magic ∷ []) (omega arith),
      Framing-one c b,
    )
