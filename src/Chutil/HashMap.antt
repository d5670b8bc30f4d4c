-- ===== src/Chutil/HashMap.antt =====
-- The hash map: chutil/include/chutil/map.h and chutil/src/map.c. A chain is the list of its
-- headers from the front, and NULL is the empty list; the iterator's header is the list of the
-- headers from it to the end of its chain. A size_t product keeps its wrap-around.
pub mod Chains
pub mod Tables
pub mod Resize
pub mod Refines
pub mod Clients
pub mod Iteration
mod Tests
use mathlib.Core.List.{flatten}
use chlibs.Common.{
  ℕ, zero, suc, ◌+◌, ◌-◌, ◌*◌, ◌%◌, ◌^◌, Bool, true, false, ◌&&◌, ◌||◌, Option, none, some, List,
  [], ◌∷◌, drop, set, replicate, leb, ◌==◌, if◌then◌else◌,
}

abbrev pub size_mod : ℕ
size_mod = 2 ^ 64

-- a header, its key and its value
pub record Cell (K V : Type 0) : Type 0 where
  pub hash_val : ℕ
  pub key : K
  pub value : V

pub record HashMap (K V : Type 0) : Type 0 where
  pub num_keys : ℕ
  pub chains_cap : ℕ
  pub chains : List (List (Cell K V))
  pub iter_chain_ind : ℕ
  pub iter : List (Cell K V)

-- `chains[i]`
unfoldable pub chain_at : {A : Type 0} → List (List A) → ℕ → List A
chain_at [] i = []
chain_at (c ∷ cs) zero = c
chain_at (c ∷ cs) (suc i) = chain_at cs i

-- The tests are for NULL functions; `ind` and `garbage` are what `malloc` gave for the iterator.
unfoldable pub new_hash_map :
    {K V : Type 0}
    → (ks : ℕ) (no_hash no_eq : Bool) (ind : ℕ) (garbage : List (Cell K V)) → Option (HashMap K V)
new_hash_map ks no_hash no_eq ind garbage =
    if ks == 0 || no_hash || no_eq
    then none
    else some (record {
      num_keys = 0;
      chains_cap = 8;
      chains = replicate 8 [];
      iter_chain_ind = ind;
      iter = garbage;
    })

module _ {K V : Type 0} where
  -- A header goes to the front of its chain in the new table.
  unfoldable pub place : ℕ → List (List (Cell K V)) → Cell K V → List (List (Cell K V))
  place new_cap chains c =
      let new_ind = c.hash_val % new_cap in set chains new_ind (c ∷ chain_at chains new_ind)

  -- the loop over one chain
  unfoldable pub move_chain : ℕ → List (List (Cell K V)) → List (Cell K V) → List (List (Cell K V))
  unfolding place
  move_chain new_cap chains [] = chains
  move_chain new_cap chains (c ∷ cs) = move_chain new_cap (place new_cap chains c) cs

  -- the loop over the chains
  unfoldable pub move_chains :
      ℕ → List (List (Cell K V)) → List (List (Cell K V)) → List (List (Cell K V))
  unfolding move_chain
  move_chains new_cap chains [] = chains
  move_chains new_cap chains (old ∷ olds) = move_chains new_cap (move_chain new_cap chains old) olds

  unfoldable pub hm_check_resize : HashMap K V → HashMap K V
  unfolding move_chains
  hm_check_resize hm =
      if leb (hm.num_keys * 2 % size_mod) hm.chains_cap
      then hm
      else (let new_cap = hm.chains_cap * 2 % size_mod in
          record hm {
            chains_cap = new_cap;
            chains = move_chains new_cap (replicate new_cap []) hm.chains;
          })

  -- The first chain from `ind` on that is not NULL, and its index.
  unfoldable pub seek : ℕ → List (List (Cell K V)) → ℕ × List (Cell K V)
  seek ind [] = (ind, [])
  seek ind ([] ∷ cs) = seek (suc ind) cs
  seek ind ((c ∷ chain) ∷ cs) = (ind, c ∷ chain)

  -- At an empty map the index stays.
  unfoldable pub hm_reset_iterator : HashMap K V → HashMap K V
  unfolding seek
  hm_reset_iterator hm = elim (seek 0 hm.chains).1 [
    | [] ↦ record hm { iter = [] }
    | c ∷ chain ↦ record hm { iter_chain_ind = (seek 0 hm.chains).0; iter = c ∷ chain }
  ]

  unfoldable pub next_of : HashMap K V → List (Cell K V) → Option (Cell K V) × HashMap K V
  unfolding seek
  next_of hm [] = (none, hm)
  next_of hm (c ∷ []) =
      let ind = suc hm.iter_chain_ind in
      let (i, chain) = seek ind (drop ind hm.chains) in
      (some c, record hm { iter_chain_ind = i; iter = chain })
  next_of hm (c ∷ d ∷ chain) = (some c, record hm { iter = d ∷ chain })

  -- `none` is HASH_MAP_EXHAUSTED.
  unfoldable pub hm_next_kvp : HashMap K V → Option (Cell K V) × HashMap K V
  unfolding next_of
  hm_next_kvp hm = next_of hm hm.iter

module _ {K V : Type 0} (hash_func : K → ℕ) (eq_func : K → K → Bool) where
  -- the test of a header in the loops of put, get and remove
  abbrev pub hits : ℕ → K → Cell K V → Bool
  hits hash_val key c = (c.hash_val == hash_val) && eq_func c.key key

  -- the loop of `hm_get`
  unfoldable pub find_value : ℕ → K → List (Cell K V) → Option V
  find_value h k [] = none
  find_value h k (c ∷ cs) = if hits h k c then some c.value else find_value h k cs

  -- the loop of `hm_put`; `none` if no header hits
  unfoldable pub update_chain : ℕ → K → V → List (Cell K V) → Option (List (Cell K V))
  update_chain h k v [] = none
  update_chain h k v (c ∷ cs) =
      let rest = update_chain h k v cs in
      if hits h k c
      then some (record c { value = v } ∷ cs)
      else elim rest [ none ↦ none | some ds ↦ some (c ∷ ds) ]

  -- the loop of `hm_remove`, with the unlinking; `none` if no header hits
  unfoldable pub unlink_chain : ℕ → K → List (Cell K V) → Option (List (Cell K V))
  unlink_chain h k [] = none
  unlink_chain h k (c ∷ cs) =
      let rest = unlink_chain h k cs in
      if hits h k c then some cs else elim rest [ none ↦ none | some ds ↦ some (c ∷ ds) ]

  unfoldable pub hm_get : HashMap K V → K → Option V
  unfolding find_value
  hm_get hm k = let h = hash_func k in find_value h k (chain_at hm.chains (h % hm.chains_cap))

  unfoldable pub hm_put : HashMap K V → K → V → HashMap K V
  unfolding update_chain
  hm_put hm k v =
      let h = hash_func k in
      let ind = h % hm.chains_cap in
      elim (update_chain h k v (chain_at hm.chains ind)) [
        | some chain ↦ record hm { chains = set hm.chains ind chain }
        | none ↦ hm_check_resize (record hm {
          chains =
              set hm.chains ind
                (record { hash_val = h; key = k; value = v } ∷ chain_at hm.chains ind);
          num_keys = (hm.num_keys + 1) % size_mod;
        })
      ]

  unfoldable pub hm_remove : HashMap K V → K → Bool × HashMap K V
  unfolding unlink_chain
  hm_remove hm k =
      let h = hash_func k in
      let ind = h % hm.chains_cap in
      elim (unlink_chain h k (chain_at hm.chains ind)) [
        | none ↦ (false, hm)
        | some chain ↦ (
          true,
          record hm {
            chains = set hm.chains ind chain;
            num_keys = (hm.num_keys + size_mod - 1) % size_mod;
          },
        )
      ]
