-- ===== src/Chutil/Queue.antt =====
-- The cyclic queue of constant size: chutil/include/chutil/queue.h and chutil/src/queue.c. A cell
-- of `cell_size` bytes is a value of a type `A` that is only copied; a pointer that may be NULL is
-- an option. `size_t` arithmetic wraps at 2 ^ 64.
pub mod Fifo
pub mod Models
mod Tests
use chlibs.Common.{
  ℕ, ◌+◌, ◌-◌, ◌%◌, ◌^◌, Bool, true, false, ◌||◌, Option, none, some, List, get_elem?, set, ◌==◌,
  if◌then◌else◌,
}

abbrev pub size_mod : ℕ
size_mod = 2 ^ 64

pub record Queue {ℓ} (A : Type ℓ) : Type ℓ where
  pub cap : ℕ
  pub len : ℕ
  pub cell_size : ℕ
  pub i : ℕ
  pub table : List A

module _ {ℓ} {A : Type ℓ} where
  -- `table` is what malloc returned for the cells, with whatever it holds.
  unfoldable pub new_queue : (cap cs : ℕ) → List A → Option (Queue A)
  new_queue cap cs table =
      if cap == 0 || cs == 0
      then none
      else some (record { cap = cap; len = 0; cell_size = cs; i = 0; table = table })

  unfoldable pub q_cap : Queue A → ℕ
  q_cap q = q.cap

  unfoldable pub q_len : Queue A → ℕ
  q_len q = q.len

  unfoldable pub q_full : Queue A → Bool
  q_full q = q.cap == q.len

  -- The cell that the returned pointer shows, `none` for NULL.
  unfoldable pub q_peek : Queue A → Option A
  q_peek q = if q.len == 0 then none else get_elem? q.table q.i

  -- the index that a push writes
  abbrev pub push_ind : Queue A → ℕ
  push_ind q = (q.i + q.len) % size_mod % q.cap

  -- The returned status is 0 on success, 1 otherwise.
  unfoldable pub q_push : Queue A → Option A → ℕ × Queue A
  unfolding q_full
  q_push q none = (1, q)
  q_push q (some x) =
      if q_full q
      then (1, q)
      else (0, record q { table = set q.table (push_ind q) x; len = (q.len + 1) % size_mod })

  -- the index after `q->i++` and its reset at the capacity
  abbrev pub next_ind : Queue A → ℕ
  next_ind q = let j = (q.i + 1) % size_mod in if j == q.cap then 0 else j

  -- `wanted` says that `dest` is not NULL; the option is what is copied there.
  unfoldable pub q_poll : Queue A → Bool → ℕ × Option A × Queue A
  q_poll q wanted = if q.len == 0 then (1, none, q) else (
    0,
    (if wanted then get_elem? q.table q.i else none),
    record q { i = next_ind q; len = q.len - 1 },
  )
