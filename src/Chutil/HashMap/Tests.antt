-- ===== src/Chutil/HashMap/Tests.antt =====
-- Runs of the hash map and instances of its theorems.
use chlibs.Common.{
  ℕ, ◌%◌, ◌≡◌, ◌↔◌, refl, Bool, true, false, none, some, List, [], ◌∷◌, length, arith, ◌==◌, ==→eq,
  eq→==,
}
use chlibs.Chutil.HashMap.{
  Cell, HashMap, new_hash_map, hm_get, hm_put, hm_remove, hm_reset_iterator, chain_at,
  hm_check_resize,
}
use chlibs.Chutil.HashMap.Chains.{find}
use chlibs.Chutil.HashMap.Resize.{Fresh}
use chlibs.Chutil.HashMap.Refines.{Holds, map_put, hm_put-Holds, new_hash_map-Holds}
use chlibs.Chutil.HashMap.Clients.{
  Op, put, get, remove, num_keys, done, value, removed, counted, run, run_map, run-run_map,
}
use chlibs.Chutil.HashMap.Iteration.{collect, collect-Holds}

-- a poor hash function, so that chains grow
abbrev hash : ℕ → ℕ
hash k = k % 3

abbrev same : ℕ → ℕ → Bool
same a b = a == b

same-law : (a b : ℕ) → (same a b ≡ true) ↔ (a ≡ b)
same-law a b = (==→eq a b, eq→== a b)

abbrev empty : HashMap ℕ ℕ
empty = record {
  num_keys = 0;
  chains_cap = 8;
  chains = [] ∷ [] ∷ [] ∷ [] ∷ [] ∷ [] ∷ [] ∷ [] ∷ [];
  iter_chain_ind = 0;
  iter = [];
}

empty-Holds : Holds hash same same-law 0 empty (λ k. none) 0
unfolding new_hash_map
empty-Holds = (new_hash_map-Holds hash same same-law 4 false false 0 []).1 empty refl

abbrev script : List (Op ℕ ℕ)
script =
    put 1 10
    ∷ put 4 40
    ∷ put 1 11
    ∷ put 2 20
    ∷ put 5 50
    ∷ put 7 70
    ∷ num_keys
    ∷ get 1
    ∷ get 9
    ∷ remove 4
    ∷ remove 4
    ∷ get 4
    ∷ get 7
    ∷ num_keys
    ∷ []

run-empty :
    run hash same empty script
    ≡ done
      ∷ done
      ∷ done
      ∷ done
      ∷ done
      ∷ done
      ∷ counted 5
      ∷ value (some 11)
      ∷ value none
      ∷ removed true
      ∷ removed false
      ∷ value none
      ∷ value (some 70)
      ∷ counted 4
      ∷ []
unfolding run hm_put hm_get hm_remove chain_at hm_check_resize
run-empty = refl

run-run_map_example : run hash same empty script ≡ run_map same (λ k. none) 0 script
run-run_map_example = run-run_map hash same same-law script empty-Holds (omega arith)

one-Holds :
    Holds hash same same-law 1 (hm_put hash same empty 4 40) (map_put same (λ k. none) 4 40) 1
one-Holds = hm_put-Holds hash same same-law empty-Holds 4 40 (omega arith)

collect-Holds_example :
    (xs : List (Cell ℕ ℕ)) × (collect 2 (hm_reset_iterator (hm_put hash same empty 4 40)) ≡ some xs)
    × (length xs ≡ 1)
    × Fresh hash same same-law xs
    × ((k : ℕ) → find hash same same-law k xs ≡ map_put same (λ j. none) 4 40 k)
collect-Holds_example = collect-Holds hash same same-law one-Holds
