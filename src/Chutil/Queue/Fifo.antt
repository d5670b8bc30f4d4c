-- ===== src/Chutil/Queue/Fifo.antt =====
-- What a queue promises: a bounded FIFO, and the calls that a client can make.
use chlibs.Common.{ℕ, Bool, Option, none, some, List, [], ◌∷◌, ◌++◌, length, leb, if◌then◌else◌}

pub data Op {ℓ} (A : Type ℓ) : Type ℓ where
  push : Option A → Op A
  poll : Bool → Op A
  peek : Op A

module _ {ℓ} {A : Type ℓ} where
  unfoldable pub fifo_push : ℕ → List A → Option A → ℕ × List A
  fifo_push cap xs none = (1, xs)
  fifo_push cap xs (some x) = if leb cap (length xs) then (1, xs) else (0, xs ++ (x ∷ []))

  unfoldable pub fifo_poll : List A → Bool → ℕ × Option A × List A
  fifo_poll [] wanted = (1, none, [])
  fifo_poll (x ∷ xs) wanted = (0, (if wanted then some x else none), xs)

  unfoldable pub fifo_peek : List A → Option A
  fifo_peek [] = none
  fifo_peek (x ∷ xs) = some x

  -- What each call of a client returns.
  unfoldable pub fifo_run : ℕ → List A → List (Op A) → List (ℕ × Option A)
  fifo_run cap xs [] = []
  fifo_run cap xs (push x ∷ ops) =
      let (s, ys) = fifo_push cap xs x in (s, none) ∷ fifo_run cap ys ops
  fifo_run cap xs (poll w ∷ ops) =
      let (s, out, ys) = fifo_poll xs w in (s, out) ∷ fifo_run cap ys ops
  fifo_run cap xs (peek ∷ ops) = (0, fifo_peek xs) ∷ fifo_run cap xs ops
