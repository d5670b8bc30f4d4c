-- ===== src/Chutil/ArrayList/Stores.antt =====
-- The array list stores a list at the front of its block.
use chlibs.Common.{
  ℕ, zero, suc, ◌+◌, ◌-◌, ◌*◌, ◌%◌, ◌^◌, ◌<◌, ◌≡◌, ◌⊎◌, refl, sym, ◌∙◌, ap, ap₂, subst, Bool,
  Option, none, some, List, [], ◌∷◌, ◌++◌, length, get_elem?, set, take, length-append, length-set,
  take-length_append, append_assoc, if◌then◌else◌, ◌==◌, Bool-cases, inl, inr, ==→eq, not-==→ne,
  ne→not-==, arith, mod-eq_of_lt,
}
use chlibs.Chutil.ArrayList.{
  ArrayList, size_mod, al_get, al_push, al_pop, al_poll, shift, al_set, new_array_list,
  delete_and_move_array_list,
}

module _ {ℓ} {A : Type ℓ} where
  -- The list is well formed, and stores `xs`; `junk` is what the unused cells hold.
  pub record Stores (al : ArrayList A) (xs : List A) : Type ℓ where
    pub junk : List A
    pub block : al.arr ≡ xs ++ junk
    pub fits : length al.arr ≡ al.cap
    pub count : length xs ≡ al.len
    pub some_cell : 0 < al.cap

  set-append_end :
      (xs : List A) (y : A) (ys : List A) (x : A)
      → set (xs ++ (y ∷ ys)) (length xs) x ≡ (xs ++ (x ∷ [])) ++ ys
  set-append_end [] y ys x = refl
  set-append_end (z ∷ xs) y ys x = ap (λ t. z ∷ t) (set-append_end xs y ys x)

  get_elem?-append_mid :
      (xs : List A) (y : A) (ys : List A) → get_elem? (xs ++ (y ∷ ys)) (length xs) ≡ some y
  get_elem?-append_mid [] y ys = refl
  get_elem?-append_mid (z ∷ xs) y ys = get_elem?-append_mid xs y ys

  -- The loop of `al_poll` moves the cells behind `x` one place to the front.
  shift-append :
      (pre : List A) (x : A) (ys junk : List A)
      → (rest : List A) × (shift (pre ++ (x ∷ (ys ++ junk))) (suc (length pre)) (length ys)
          ≡ pre ++ (ys ++ rest))
  unfolding shift
  shift-append pre x [] junk = (x ∷ junk, refl)
  shift-append pre x (y ∷ ys) junk =
      let longer : length (pre ++ (x ∷ [])) ≡ suc (length pre) =
        omega (arith, length-append pre (x ∷ [])) in
      let next : get_elem? (pre ++ (x ∷ (y ∷ (ys ++ junk)))) (suc (length pre)) ≡ some y =
        subst (λ n. get_elem? (pre ++ (x ∷ (y ∷ (ys ++ junk)))) n ≡ some y) longer
          (ap (λ t. get_elem? t (length (pre ++ (x ∷ []))))
              (sym (append_assoc pre (x ∷ []) (y ∷ (ys ++ junk))))
            ∙ get_elem?-append_mid (pre ++ (x ∷ [])) y (ys ++ junk)) in
      let (rest, e) = shift-append (pre ++ (y ∷ [])) y ys junk in
      let moved : set (pre ++ (x ∷ (y ∷ (ys ++ junk)))) (suc (length pre) - 1) y
          ≡ (pre ++ (y ∷ [])) ++ (y ∷ (ys ++ junk)) =
        ap (λ n. set (pre ++ (x ∷ (y ∷ (ys ++ junk)))) n y) (omega arith)
        ∙ set-append_end pre x (y ∷ (ys ++ junk)) y in
      (
        rest,
        rw (shift, next)
            (ap₂ (λ t n. shift t (suc n) (length ys)) moved
                (omega (arith, length-append pre (y ∷ [])))
              ∙ e
              ∙ append_assoc pre (y ∷ []) (ys ++ rest)),
      )

  length-shift : (arr : List A) (next n : ℕ) → length (shift arr next n) ≡ length arr
  unfolding shift
  length-shift arr next zero = refl
  length-shift arr next (suc n) =
      shifted_one (get_elem? arr next) (λ x. length-shift (set arr (next - 1) x) (suc next) n)
    where
      shifted_one :
          (r : Option A)
          → ((x : A)
              → length (shift (set arr (next - 1) x) (suc next) n) ≡ length (set arr (next - 1) x))
          → length (elim r [ none ↦ arr | some x ↦ shift (set arr (next - 1) x) (suc next) n ])
            ≡ length arr
      shifted_one none f = refl
      shifted_one (some x) f = f x ∙ length-set arr (next - 1) x

  -- An array list is refused at a cell size of 0, and is otherwise well formed and empty.
  pub new_array_list-Stores :
      (cs : ℕ) (garbage : A) (ind : ℕ)
      → ((cs ≡ 0) × (new_array_list cs garbage ind ≡ none))
        ⊎ ((al : ArrayList A) × (new_array_list cs garbage ind ≡ some al) × Stores al [])
  unfolding new_array_list
  new_array_list-Stores cs garbage ind = elim (Bool-cases (cs == 0)) [
    | inl e ↦ inl (==→eq _ _ e, rw e refl)
    | inr e ↦ inr (
      record { cap = 1; len = 0; cell_size = cs; arr = garbage ∷ []; iter_ind = ind },
      rw e refl,
      record {
        junk = garbage ∷ [];
        block = refl;
        fits = refl;
        count = refl;
        some_cell = omega arith;
      },
    )
  ]

  -- a write behind the last value, where there is a cell
  store_end :
      (al : ArrayList A) (xs : List A) (x : A)
      → Stores al xs
      → length xs < al.cap
      → al.cap < 2 ^ 63
      → Stores
          (record al { arr = set al.arr al.len x; len = (al.len + 1) % size_mod })
          (xs ++ (x ∷ []))
  store_end al xs x s room small = with_junk s.junk s.block
    where
      with_junk :
          (junk : List A)
          → al.arr ≡ xs ++ junk
          → Stores
              (record al { arr = set al.arr al.len x; len = (al.len + 1) % size_mod })
              (xs ++ (x ∷ []))
      with_junk [] e = absurd (omega (arith, s.fits, ap length e, length-append xs []))
      with_junk (y ∷ ys) e =
          let counted : (al.len + 1) % size_mod ≡ al.len + 1 =
            mod-eq_of_lt (omega (arith, s.count)) in
          record {
            junk = ys;
            block = ap₂ (λ t n. set t n x) e (sym s.count) ∙ set-append_end xs y ys x;
            fits = length-set al.arr al.len x ∙ s.fits;
            count = omega (arith, length-append xs (x ∷ []), s.count, counted);
            some_cell = s.some_cell;
          }

  -- A push to a well-formed array list stores the value behind the others, in a block of twice the
  -- size if the block is full and else in the same; the block is below 2 ^ 62 cells and grows by
  -- its size.
  pub al_push-Stores :
      (al : ArrayList A) (xs : List A) (x : A) (more : List A)
      → Stores al xs
      → length more ≡ al.cap
      → al.cap < 2 ^ 62
      → Stores (al_push al x more) (xs ++ (x ∷ []))
        × (length xs ≡ al.cap → (al_push al x more).cap ≡ al.cap + al.cap)
        × (length xs < al.cap → (al_push al x more).cap ≡ al.cap)
  unfolding al_push al_set
  al_push-Stores al xs x more s h small = elim (Bool-cases (al.len == al.cap)) [
    | inr room ↦
        let other = not-==→ne _ _ room in
        rw room (
          store_end al xs x s
              (omega (arith, s.count, s.fits, other, ap length s.block, length-append xs s.junk))
              (omega arith),
          λ full. absurd (omega (arith, s.count, other, full)),
          λ less. refl,
        )
    | inl full ↦
        let e : al.len ≡ al.cap = ==→eq _ _ full in
        let twice : al.cap * 2 % size_mod ≡ al.cap * 2 = mod-eq_of_lt (omega arith) in
        rw full (
          store_end (record al { arr = al.arr ++ more; cap = al.cap * 2 % size_mod }) xs x
              (record {
                junk = s.junk ++ more;
                block = ap (λ t. t ++ more) s.block ∙ append_assoc xs s.junk more;
                fits = length-append al.arr more ∙ omega (arith, s.fits, twice);
                count = s.count;
                some_cell = omega (arith, twice, s.some_cell);
              })
              (omega (arith, s.count, twice, s.some_cell)) (omega (arith, twice)),
          λ same. omega (arith, twice),
          λ less. absurd (omega (arith, s.count, e, less)),
        )
  ]

  -- A pop from a well-formed array list that is not empty takes the last value, shows it if asked
  -- to, and leaves the others.
  pub al_pop-Stores :
      (al : ArrayList A) (xs : List A) (x : A) (wanted : Bool)
      → Stores al (xs ++ (x ∷ []))
      → ((al_pop al wanted).0 ≡ (if wanted then some x else none)) × Stores (al_pop al wanted).1 xs
  unfolding al_pop al_get
  al_pop-Stores al xs x wanted s =
      let longer = length-append xs (x ∷ []) in
      let at : al.len - 1 ≡ length xs = omega (arith, s.count) in
      let found : get_elem? al.arr (al.len - 1) ≡ some x =
        ap₂ get_elem? (s.block ∙ append_assoc xs (x ∷ []) s.junk) at
        ∙ get_elem?-append_mid xs x s.junk in
      rw (ne→not-== al.len 0 (omega (arith, s.count))) (
        ap (λ t. if wanted then t else none) found,
        record {
          junk = x ∷ s.junk;
          block = s.block ∙ append_assoc xs (x ∷ []) s.junk;
          fits = s.fits;
          count = sym at;
          some_cell = s.some_cell;
        },
      )

  -- A poll from a well-formed array list that is not empty takes the first value, shows it if
  -- asked to, and leaves the others in order.
  pub al_poll-Stores :
      (al : ArrayList A) (x : A) (xs : List A) (wanted : Bool)
      → Stores al (x ∷ xs)
      → ((al_poll al wanted).0 ≡ (if wanted then some x else none))
        × Stores (al_poll al wanted).1 xs
  unfolding al_poll al_get
  al_poll-Stores al x xs wanted s =
      let (rest, e) = shift-append [] x xs s.junk in
      let at : al.len - 1 ≡ length xs = omega (arith, s.count) in
      let moved : shift al.arr 1 (al.len - 1) ≡ xs ++ rest =
        ap₂ (λ t n. shift t 1 n) s.block at ∙ e in
      rw (ne→not-== al.len 0 (omega (arith, s.count))) (
        ap (λ t. if wanted then get_elem? t 0 else none) s.block,
        record {
          junk = rest;
          block = moved;
          fits = length-shift al.arr 1 (al.len - 1) ∙ s.fits;
          count = sym at;
          some_cell = s.some_cell;
        },
      )

  -- The block that a well-formed array list hands on is the list that it stores, or NULL if it has
  -- no value.
  pub delete_and_move_array_list-eq :
      (al : ArrayList A) (xs : List A)
      → Stores al xs
      → delete_and_move_array_list al ≡ (if al.len == 0 then none else some xs)
  unfolding delete_and_move_array_list
  delete_and_move_array_list-eq al xs s =
      ap (λ t. if al.len == 0 then none else some t)
        (ap₂ take (sym s.count) s.block ∙ take-length_append xs s.junk)
