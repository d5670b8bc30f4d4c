-- ===== src/Chutil/Queue/Tests.antt =====
-- Runs of the queue and instances of its theorems.
use chlibs.Common.{
  ℕ, zero, suc, get_elem?, ◌+◌, ◌%◌, ◌≡◌, refl, true, false, none, some, List, [], ◌∷◌, arith, ◌≤◌,
}
use chlibs.Chutil.Queue.{Queue, q_push, q_poll, q_peek}
use chlibs.Chutil.Queue.Fifo.{Op, push, poll, peek, fifo_run}
use chlibs.Chutil.Queue.Models.{Models, run, run-fifo_run}

-- Three cells, with 8 and 9 stored round the end of the table.
abbrev wrapped : Queue ℕ
wrapped = record { cap = 3; len = 2; cell_size = 4; i = 2; table = 9 ∷ 7 ∷ 8 ∷ [] }

abbrev script : List (Op ℕ)
script =
    push (some 1)
    ∷ push (some 2)
    ∷ poll true
    ∷ peek
    ∷ poll false
    ∷ push none
    ∷ poll true
    ∷ poll true
    ∷ []

wrapped-Models : Models wrapped (8 ∷ 9 ∷ [])
wrapped-Models = record {
  storage = refl;
  small = omega arith;
  index = omega arith;
  count = refl;
  room = omega arith;
  cells = at;
}
  where
    at :
        (k : ℕ)
        → suc k ≤ 2
        → get_elem? {A = ℕ} (9 ∷ 7 ∷ 8 ∷ []) ((2 + k) % 3) ≡ get_elem? (8 ∷ 9 ∷ []) k
    at zero h = refl
    at (suc zero) h = refl
    at (suc (suc k)) h = absurd (omega arith)

run-wrapped :
    run wrapped script
    ≡ (0, none)
      ∷ (1, none)
      ∷ (0, some 8)
      ∷ (0, some 9)
      ∷ (0, none)
      ∷ (1, none)
      ∷ (0, some 1)
      ∷ (1, none)
      ∷ []
unfolding run q_push q_poll q_peek
run-wrapped = refl

run-fifo_run_example : run wrapped script ≡ fifo_run 3 (8 ∷ 9 ∷ []) script
run-fifo_run_example = run-fifo_run script wrapped-Models
