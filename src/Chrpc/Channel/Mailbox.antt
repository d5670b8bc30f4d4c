-- ===== src/Chrpc/Channel/Mailbox.antt =====
-- What a channel that keeps its messages in a bounded queue promises, after the comments of
-- chrpc/include/chrpc/channel.h and channel_local.h: messages come out whole, in the order in which
-- they were sent; a message that does not fit the receiver's buffer stays; a full mailbox refuses,
-- or writes over the oldest message.
use chlibs.Common.{
  ℕ, suc, refl, ap, map, ◌≤◌, ◌<◌, ◌≡◌, Bool, ◌||◌, Option, none, some, List, [], ◌∷◌, ◌++◌, length,
  take, drop, ltb, ◌==◌, if◌then◌else◌,
}
use chlibs.Chrpc.Channel.{
  ChannelMsg, Status, chn_success, chn_buffer_too_small, chn_invalid_msg_size, chn_no_incoming_msg,
  chn_channel_full, ChannelImpl,
}

pub record Limits : Type 0 where
  pub depth : ℕ
  pub write_over : Bool
  pub max_size : ℕ

abbrev pub Mailbox : Type 0
Mailbox = List (List ℕ)

unfoldable pub mailbox_send : Limits → Mailbox → List ℕ → ℕ → Status × Mailbox
mailbox_send l ms msg len =
    if len == 0 || ltb l.max_size len
    then (chn_invalid_msg_size, ms)
    else if length ms == l.depth
    then if l.write_over
      then (chn_success, drop 1 ms ++ (take len msg ∷ []))
      else (chn_channel_full, ms)
    else (chn_success, ms ++ (take len msg ∷ []))

unfoldable pub mailbox_incoming_len : Mailbox → Status × Option ℕ
mailbox_incoming_len [] = (chn_no_incoming_msg, none)
mailbox_incoming_len (m ∷ ms) = (chn_success, some (length m))

unfoldable pub mailbox_receive : Mailbox → ℕ → Status × Option (List ℕ × ℕ) × Mailbox
mailbox_receive [] len = (chn_no_incoming_msg, none, [])
mailbox_receive (m ∷ ms) len =
    if ltb len (length m)
    then (chn_buffer_too_small, none, m ∷ ms)
    else (chn_success, some (m, length m), ms)

-- Every message of a mailbox could have been sent.
abbrev pub AllSent : Limits → Mailbox → Type 0
AllSent l [] = Unit {0}
AllSent l (m ∷ ms) = (0 < length m) × (length m ≤ l.max_size) × AllSent l ms

-- A step that returned `r` where the mailbox promises `s`.
pub record Agrees {C : Type 0} (Holds : C → Mailbox → Type 0) (r : Status × C)
    (s : Status × Mailbox) : Type 0 where
  pub status : r.0 ≡ s.0
  pub left : Holds r.1 s.1

pub record AgreesOut {C : Type 0} (Holds : C → Mailbox → Type 0)
    (r : Status × Option (List ℕ × ℕ) × C) (s : Status × Option (List ℕ × ℕ) × Mailbox)
    : Type 0 where
  pub status : r.0 ≡ s.0
  pub out : r.1 ≡ s.1
  pub left : Holds r.2 s.2

-- An implementation whose state holds a mailbox and whose functions do what the mailbox promises.
-- The caller of `send` gives at least `len` bytes.
pub record MailboxLaws {C : Type 0} (impl : ChannelImpl C) (l : Limits) : Type 1 where
  pub Holds : C → Mailbox → Type 0
  pub sent : (c : C) (ms : Mailbox) → Holds c ms → AllSent l ms
  pub max_msg_size_law :
      (c : C) (ms : Mailbox) → Holds c ms → impl.max_msg_size c ≡ (chn_success, l.max_size)
  pub send_law :
      (c : C) (ms : Mailbox) (msg : List ℕ) (len : ℕ)
      → Holds c ms
      → len ≤ length msg
      → Agrees Holds (impl.send c msg len) (mailbox_send l ms msg len)
  pub refresh_law :
      (c : C) (ms : Mailbox) → Holds c ms → Agrees Holds (impl.refresh c) (chn_success, ms)
  pub incoming_len_law :
      (c : C) (ms : Mailbox) → Holds c ms → impl.incoming_len c ≡ mailbox_incoming_len ms
  pub receive_law :
      (c : C) (ms : Mailbox) (len : ℕ)
      → Holds c ms
      → AgreesOut Holds (impl.receive c len) (mailbox_receive ms len)

-- a message as the queue stores it
abbrev pub stored : List ℕ → ChannelMsg
stored m = record { msg_size = length m; msg_buf = m }

pub length-map-stored : (ms : Mailbox) → length (map stored ms) ≡ length ms
length-map-stored [] = refl
length-map-stored (m ∷ ms) = ap suc (length-map-stored ms)

pub AllSent-append :
    (l : Limits) (ms : Mailbox) (m : List ℕ)
    → AllSent l ms
    → 0 < length m
    → length m ≤ l.max_size
    → AllSent l (ms ++ (m ∷ []))
AllSent-append l [] m s a b = (a, b, tt)
AllSent-append l (x ∷ ms) m s a b = (s.0, s.1, AllSent-append l ms m s.2 a b)

pub take_all {ℓ} : {A : Type ℓ} (xs : List A) → take (length xs) xs ≡ xs
take_all [] = refl
take_all (x ∷ xs) = ap (λ t. x ∷ t) (take_all xs)
