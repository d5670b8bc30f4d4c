-- ===== src/Chutil/ArrayList.antt =====
-- The array list: the concrete array list of chutil/include/chutil/list.h and chutil/src/list.c. A
-- cell of `cell_size` bytes is a value of a type `A` that is only copied, and `arr` is the block of
-- `cap` cells; a destination or a source that may be NULL is an option.
pub mod Stores
mod Tests
use chlibs.Common.{
  ℕ, zero, suc, ◌+◌, ◌-◌, ◌*◌, ◌%◌, ◌^◌, Bool, true, false, Option, none, some, List, [], ◌∷◌, ◌++◌,
  get_elem?, set, take, ltb, ◌==◌, if◌then◌else◌,
}

abbrev pub size_mod : ℕ
size_mod = 2 ^ 64

pub record ArrayList {ℓ} (A : Type ℓ) : Type ℓ where
  pub cap : ℕ
  pub len : ℕ
  pub cell_size : ℕ
  pub arr : List A
  pub iter_ind : ℕ

module _ {ℓ} {A : Type ℓ} where
  -- `garbage` is what malloc gave for the one cell, `ind` for the iterator.
  unfoldable pub new_array_list : (cs : ℕ) → (garbage : A) → (ind : ℕ) → Option (ArrayList A)
  new_array_list cs garbage ind =
      if cs == 0
      then none
      else some (record { cap = 1; len = 0; cell_size = cs; arr = garbage ∷ []; iter_ind = ind })

  unfoldable pub al_len : ArrayList A → ℕ
  al_len al = al.len

  -- `none` is an address outside the block.
  unfoldable pub al_get : ArrayList A → ℕ → Option A
  al_get al i = get_elem? al.arr i

  -- A write outside the block is undefined; here it changes nothing.
  unfoldable pub al_set : ArrayList A → ℕ → A → ArrayList A
  al_set al i x = record al { arr = set al.arr i x }

  -- `more` is what the reallocated block holds behind the old one.
  unfoldable pub al_push : ArrayList A → A → (more : List A) → ArrayList A
  unfolding al_set
  al_push al x more =
      let grown : ArrayList A =
        if al.len == al.cap
        then record al { arr = al.arr ++ more; cap = al.cap * 2 % size_mod }
        else al in
      let stored = al_set grown grown.len x in record stored { len = (stored.len + 1) % size_mod }

  -- `wanted` says that `dest` is not NULL; the option is what is copied there.
  unfoldable pub al_pop : ArrayList A → Bool → Option A × ArrayList A
  unfolding al_get
  al_pop al wanted =
      if al.len == 0
      then (none, al)
      else ((if wanted then al_get al (al.len - 1) else none), record al { len = al.len - 1 })

  -- The loop of `al_poll`: `n` times, the cell at `next` is copied into the cell before it.
  unfoldable pub shift : List A → (next n : ℕ) → List A
  shift arr next zero = arr
  shift arr next (suc n) = elim (get_elem? arr next) [
    | none ↦ arr
    | some x ↦ shift (set arr (next - 1) x) (suc next) n
  ]

  unfoldable pub al_poll : ArrayList A → Bool → Option A × ArrayList A
  unfolding al_get shift
  al_poll al wanted = if al.len == 0 then (none, al) else (
    (if wanted then al_get al 0 else none),
    record al { arr = shift al.arr 1 (al.len - 1); len = al.len - 1 },
  )

  unfoldable pub al_reset_iterator : ArrayList A → ArrayList A
  al_reset_iterator al = record al { iter_ind = 0 }

  unfoldable pub al_next : ArrayList A → Option A × ArrayList A
  unfolding al_get
  al_next al =
      if ltb al.iter_ind al.len
      then (al_get al al.iter_ind, record al { iter_ind = (al.iter_ind + 1) % size_mod })
      else (none, al)

  -- The block that is handed on, cut to the cells in use; `none` is NULL.
  unfoldable pub delete_and_move_array_list : ArrayList A → Option (List A)
  delete_and_move_array_list al = if al.len == 0 then none else some (take al.len al.arr)
