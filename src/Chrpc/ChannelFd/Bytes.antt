-- ===== src/Chrpc/ChannelFd/Bytes.antt =====
-- The uint32_t of a message header in memory.
use chlibs.Common.{ℕ, ◌^◌, ◌≤◌, ◌<◌, ◌≡◌, refl, List, ◌∷◌, ◌++◌, arith, length}
use chlibs.Chrpc.ChannelFd.{u32_bytes, msg_length}

-- The length that was stored is the length that is read.
pub msg_length-u32_bytes :
    (m n : ℕ) (rest : List ℕ) → n < 2 ^ 32 → msg_length (m ∷ (u32_bytes n ++ rest)) ≡ n
unfolding msg_length u32_bytes
msg_length-u32_bytes m n rest h = omega arith

pub length-u32_bytes : (n : ℕ) → length (u32_bytes n) ≡ 4
unfolding u32_bytes
length-u32_bytes n = refl

-- The bytes behind a header do not change its length.
pub msg_length-append :
    (buf more : List ℕ) → 5 ≤ length buf → msg_length (buf ++ more) ≡ msg_length buf
unfolding msg_length
msg_length-append (m ∷ a ∷ b ∷ c ∷ d ∷ buf) more h = refl
msg_length-append _ more h = absurd (omega arith)
