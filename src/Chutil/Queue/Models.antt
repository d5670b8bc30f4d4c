-- ===== src/Chutil/Queue/Models.antt =====
-- The queue of chutil/src/queue.c holds a list, and behaves as the bounded FIFO of that list.
use chlibs.Common.{
  ℕ, suc, ◌+◌, ◌-◌, ◌%◌, ◌^◌, ◌≤◌, ◌<◌, ◌≡◌, ◌≢◌, refl, sym, ◌∙◌, ap, Bool, Option, none, some,
  List, [], ◌∷◌, ◌++◌, arith, length, get_elem?, set, length-set, length-append, get_elem?-set_self,
  get_elem?-set_ne, get_elem?-append_left, get_elem?-append_end, ap₂, eq→==, ne→not-==, le→leb,
  lt→not-leb, ℕ_discrete, mod-add-mod, mod-lt, ltb, ltb→lt, not-ltb, inl, inr, ◌↔◌, ◌⊎◌,
  mod-eq_of_lt, mod-eq-sub-mod, ◌==◌, if◌then◌else◌, Bool-cases,
}
use chlibs.Chutil.Queue.{Queue, size_mod, new_queue, q_peek, push_ind, q_push, next_ind, q_poll}
use chlibs.Chutil.Queue.Fifo.{Op, push, poll, peek, fifo_push, fifo_poll, fifo_peek, fifo_run}

-- `q` is well formed, and its cells from `i` on, going round at the capacity, are `xs`. A queue has
-- at most 2 ^ 63 cells, since malloc gives no larger table.
pub record Models {ℓ} {A : Type ℓ} (q : Queue A) (xs : List A) : Type ℓ where
  pub storage : length q.table ≡ q.cap
  pub small : q.cap ≤ 2 ^ 63
  pub index : q.i < q.cap
  pub count : length xs ≡ q.len
  pub room : q.len ≤ q.cap
  pub cells : (k : ℕ) → k < q.len → get_elem? q.table ((q.i + k) % q.cap) ≡ get_elem? xs k

-- A sum below twice the capacity wraps round at most once.
mod_once : (cap s : ℕ) → s < cap + cap → s % cap ≡ (if ltb s cap then s else s - cap)
mod_once cap s h = elim (Bool-cases (ltb s cap)) [
  | inl e ↦ rw e (mod-eq_of_lt (ltb→lt _ _ e))
  | inr e ↦
      let le = not-ltb s cap e in
      rw e (mod-eq-sub-mod le ∙ mod-eq_of_lt {n = s - cap} {m = cap} (omega arith))
]

-- `a` plus less than one round comes back to no earlier slot.
mod-add-ne : (cap a k n : ℕ) → k < n → n < cap → a < cap → (a + n) % cap ≢ (a + k) % cap
mod-add-ne cap a k n hk hn ha =
    rw (mod_once cap (a + n) (omega arith), mod_once cap (a + k) (omega arith)) (ground arith)

module _ {ℓ} {A : Type ℓ} where
  -- A queue is refused exactly at a capacity or a cell size of 0, and is otherwise well formed,
  -- empty and of that capacity; the table has a cell for each place, at most 2 ^ 63.
  pub new_queue-Models :
      (cap cs : ℕ) (table : List A)
      → length table ≡ cap
      → cap ≤ 2 ^ 63
      → ((new_queue cap cs table ≡ none) ↔ ((cap ≡ 0) ⊎ (cs ≡ 0)))
        × ((q : Queue A) → new_queue cap cs table ≡ some q → Models q [] × (q.cap ≡ cap))
  unfolding new_queue
  new_queue-Models cap cs table h small =
      ((λ e. ground arith, λ z. ground arith), λ q e. ground arith)

  push_ind-eq : {q : Queue A} {xs : List A} → Models q xs → push_ind q ≡ (q.i + q.len) % q.cap
  push_ind-eq {q} m = ap (λ t. t % q.cap) (mod-eq_of_lt (omega arith))

  -- The slot that a push writes, and the others, after it.
  push-cells :
      {q : Queue A} {xs : List A} (x : A)
      → Models q xs
      → q.len < q.cap
      → (k : ℕ) → k < q.len + 1
      → get_elem? (set q.table (push_ind q) x) ((q.i + k) % q.cap) ≡ get_elem? (xs ++ (x ∷ [])) k
  push-cells {q} {xs} x m lt k hk = elim (ℕ_discrete k q.len) [
    | yes e ↦
        rw (push_ind-eq m, e, ← m.count, get_elem?-append_end)
          (get_elem?-set_self q.table _ x (omega (arith, mod-lt (q.i + length xs) {m = q.cap})))
    | no ne ↦
        rw (push_ind-eq m, get_elem?-append_left xs (x ∷ []) k (omega arith))
          (get_elem?-set_ne q.table _ _ x (mod-add-ne q.cap q.i k q.len (omega arith) lt m.index)
            ∙ m.cells k (omega arith))
  ]

  -- A push at a queue that is not full appends.
  push-Models :
      {q : Queue A} {xs : List A} (x : A)
      → Models q xs
      → q.len < q.cap
      → Models
          (record q { table = set q.table (push_ind q) x; len = (q.len + 1) % size_mod })
          (xs ++ (x ∷ []))
  push-Models {q} {xs} x m lt = record {
    storage = length-set q.table (push_ind q) x ∙ m.storage;
    small = m.small;
    index = m.index;
    count = omega (arith, length-append xs (x ∷ []));
    room = omega arith;
    cells = λ k hk. push-cells x m lt k (omega arith);
  }

  next_ind-eq : {q : Queue A} {xs : List A} → Models q xs → next_ind q ≡ (q.i + 1) % q.cap
  next_ind-eq {q} m = rw (mod_once q.cap (q.i + 1) (omega arith)) (ground arith)

  -- A poll at a queue that is not empty drops the first value.
  poll-Models :
      {q : Queue A} {xs : List A} (x : A)
      → Models q (x ∷ xs)
      → Models (record q { i = next_ind q; len = q.len - 1 }) xs
  poll-Models {q} {xs} x m = record {
    storage = m.storage;
    small = m.small;
    index = ground arith;
    count = omega arith;
    room = omega arith;
    cells = λ k hk. rw (next_ind-eq m, mod-add-mod) (rw (shift k) (m.cells (suc k) (omega arith)));
  }
    where
      shift : (k : ℕ) → q.i + 1 + k ≡ q.i + suc k
      shift k = omega arith

  -- The first cell is the first value.
  front-Models :
      {q : Queue A} {xs : List A} (x : A) → Models q (x ∷ xs) → get_elem? q.table q.i ≡ some x
  front-Models {q} x m =
      let at : q.i ≡ (q.i + 0) % q.cap =
        sym (ap (λ t. t % q.cap) (omega arith) ∙ mod-eq_of_lt m.index) in
      ap (get_elem? q.table) at ∙ m.cells 0 (omega arith)

  -- `q_push` returns the status of the bounded FIFO, and leaves the queue holding its list.
  pub q_push-Models :
      {q : Queue A} {xs : List A} (src : Option A)
      → Models q xs
      → ((q_push q src).0 ≡ (fifo_push q.cap xs src).0)
        × Models (q_push q src).1 (fifo_push q.cap xs src).1
        × ((q_push q src).1.cap ≡ q.cap)
  unfolding q_push fifo_push
  q_push-Models none m = (refl, m, refl)
  q_push-Models {q} {xs} (some x) m = elim (Bool-cases (q.cap == q.len)) [
    | inl e ↦ rw (e, le→leb q.cap (length xs) (ground arith)) (refl, m, refl)
    | inr e ↦
        rw (e, lt→not-leb q.cap (length xs) (ground arith))
          (refl, push-Models x m (ground arith), refl)
  ]

  -- `q_poll` returns the status and the value of the bounded FIFO, and leaves the rest.
  pub q_poll-Models :
      {q : Queue A} {xs : List A} (wanted : Bool)
      → Models q xs
      → ((q_poll q wanted).0 ≡ (fifo_poll xs wanted).0)
        × ((q_poll q wanted).1 ≡ (fifo_poll xs wanted).1)
        × Models (q_poll q wanted).2 (fifo_poll xs wanted).2
        × ((q_poll q wanted).2.cap ≡ q.cap)
  unfolding q_poll fifo_poll
  q_poll-Models {q} {xs = []} wanted m = rw (eq→== q.len 0 (omega arith)) (refl, refl, m, refl)
  q_poll-Models {q} {xs = x ∷ xs} wanted m =
      rw (ne→not-== q.len 0 (omega arith), front-Models x m) (refl, refl, poll-Models x m, refl)

  -- `q_peek` shows the first value, or is NULL at an empty queue.
  pub q_peek-Models : {q : Queue A} {xs : List A} → Models q xs → q_peek q ≡ fifo_peek xs
  unfolding q_peek fifo_peek
  q_peek-Models {q} {xs = []} m = rw (eq→== q.len 0 (omega arith)) refl
  q_peek-Models {q} {xs = x ∷ xs} m = rw (ne→not-== q.len 0 (omega arith)) (front-Models x m)

  -- What each call of a client returns.
  unfoldable pub run : Queue A → List (Op A) → List (ℕ × Option A)
  run q [] = []
  run q (push x ∷ ops) = let (s, q') = q_push q x in (s, none) ∷ run q' ops
  run q (poll w ∷ ops) = let (s, out, q') = q_poll q w in (s, out) ∷ run q' ops
  run q (peek ∷ ops) = (0, q_peek q) ∷ run q ops

  -- No sequence of pushes, polls and peeks tells a queue that stores a list of values from the
  -- bounded FIFO that holds the list.
  pub run-fifo_run :
      (ops : List (Op A)) {q : Queue A} {xs : List A}
      → Models q xs
      → run q ops ≡ fifo_run q.cap xs ops
  unfolding run fifo_run
  run-fifo_run [] m = refl
  run-fifo_run (push x ∷ ops) {q} {xs} m =
      let (s, m', c) = q_push-Models x m in
      ap₂ ◌∷◌ (ap (λ t. (t, none)) s)
        (run-fifo_run ops m' ∙ ap (λ t. fifo_run t (fifo_push q.cap xs x).1 ops) c)
  run-fifo_run (poll w ∷ ops) {q} {xs} m =
      let (s, o, m', c) = q_poll-Models w m in
      ap₂ ◌∷◌ (ap₂ (λ t u. (t, u)) s o)
        (run-fifo_run ops m' ∙ ap (λ t. fifo_run t (fifo_poll xs w).2 ops) c)
  run-fifo_run (peek ∷ ops) {q} {xs} m =
      ap₂ ◌∷◌ (ap (λ t. (0, t)) (q_peek-Models m)) (run-fifo_run ops m)
