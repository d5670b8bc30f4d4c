-- ===== src/Chutil/HashMap/Refines.antt =====
-- The hash map is a finite map: a function from keys to values, and the number of its keys.
use mathlib.Core.List.{flatten}
use mathlib.Core.Option.{some-injective}
use chlibs.Common.{
  ℕ, suc, ◌+◌, ◌-◌, ◌*◌, ◌%◌, ◌^◌, ◌≤◌, ◌<◌, ◌≡◌, ◌≢◌, ◌↔◌, ◌⊎◌, refl, sym, ◌∙◌, ap, subst, Bool,
  true, false, Option, none, some, List, ◌∷◌, length, length-set, set, if◌then◌else◌, ◌||◌,
  Bool-cases, inl, inr, arith, mod-lt, mod-eq_of_lt, leb, not-leb→lt, ◌==◌, ==→eq, eq→==,
}
use chlibs.Chutil.HashMap.{
  Cell, HashMap, size_mod, chain_at, place, new_hash_map, hm_check_resize, hm_get, hm_put,
  hm_remove,
}
use chlibs.Chutil.HashMap.Chains.{
  find, ChainOk, UpdateOk, update_chain-Updated, UnlinkOk, unlink_chain-Unlinked,
}
use chlibs.Chutil.HashMap.Tables.{
  look, ChainOk-chain_at, TableOk-set, look-set, count-set, count-replicate, TableOk-replicate,
}
use chlibs.Chutil.HashMap.Resize.{look-replicate, Table, place-Placed, move_chains-Resized}

-- The number of keys after a put at a key with this value before.
abbrev pub after_put : {V : Type 0} → Option V → ℕ → ℕ
after_put none n = suc n
after_put (some v) n = n

abbrev pub after_remove : {V : Type 0} → Option V → ℕ → Bool × ℕ
after_remove none n = (false, n)
after_remove (some v) n = (true, n - 1)

-- the maps after a put and a remove
abbrev pub map_put : {K V : Type 0} → (K → K → Bool) → (K → Option V) → K → V → K → Option V
map_put eq_func m k v k' = if eq_func k k' then some v else m k'

abbrev pub map_remove : {K V : Type 0} → (K → K → Bool) → (K → Option V) → K → K → Option V
map_remove eq_func m k k' = if eq_func k k' then none else m k'

module _ {K V : Type 0} (hash_func : K → ℕ) (eq_func : K → K → Bool)
    (eq_law : (a b : K) → (eq_func a b ≡ true) ↔ (a ≡ b)) where
  -- The map after at most `used` calls of put is well formed, answers lookups by `m`, and has `n`
  -- keys.
  pub record Holds (used : ℕ) (hm : HashMap K V) (m : K → Option V) (n : ℕ) : Type 0 where
    pub table : Table hash_func eq_func eq_law hm.chains_cap hm.chains
    pub found : (k : K) → look hash_func eq_func eq_law hm.chains_cap hm.chains k ≡ m k
    pub count : length (flatten hm.chains) ≡ n
    pub keys : hm.num_keys ≡ n
    pub load : n ≤ used
    pub size : hm.chains_cap ≤ 8 + 4 * used

  hm_check_resize-Holds :
      (used : ℕ) (hm : HashMap K V) (m : K → Option V) (n : ℕ)
      → Holds used hm m n
      → used ≤ 2 ^ 60
      → Holds used (hm_check_resize hm) m n
  unfolding hm_check_resize
  hm_check_resize-Holds used hm m n v small =
      let twice : hm.num_keys * 2 % size_mod ≡ hm.num_keys * 2 =
        mod-eq_of_lt (omega (arith, v.keys, v.load)) in
      let wider : hm.chains_cap * 2 % size_mod ≡ hm.chains_cap * 2 =
        mod-eq_of_lt (omega (arith, v.size)) in
      rw twice (elim (Bool-cases (leb (hm.num_keys * 2) hm.chains_cap)) [
        | inl e ↦ rw e v
        | inr e ↦
            let lt = not-leb→lt _ _ e in
            let r =
              move_chains-Resized hash_func eq_func eq_law (hm.chains_cap * 2 % size_mod)
                hm.chains_cap hm.chains v.table (omega (arith, wider, v.table.some_chain)) in
            rw e (record {
              table = r.table;
              found = λ k. r.found k ∙ v.found k;
              count = r.count ∙ v.count;
              keys = v.keys;
              load = v.load;
              size = omega (arith, wider, v.keys, v.load);
            })
      ])

  -- A chain is replaced by one that differs at the key `k` only.
  look-set_one :
      (cap : ℕ) (chains : List (List (Cell K V))) (k : K) (x : Option V) (ds : List (Cell K V))
      → hash_func k % cap < length chains
      → ((k' : K)
          → find hash_func eq_func eq_law k' ds ≡ (
              if eq_func k k'
              then x
              else find hash_func eq_func eq_law k' (chain_at chains (hash_func k % cap))))
      → (k' : K)
      → look hash_func eq_func eq_law cap (set chains (hash_func k % cap) ds) k'
        ≡ (if eq_func k k' then x else look hash_func eq_func eq_law cap chains k')
  look-set_one cap chains k x ds bound one k' =
      look-set hash_func eq_func eq_law cap (hash_func k % cap) chains ds k' bound
      ∙ elim (Bool-cases (hash_func k' % cap == hash_func k % cap)) [
        | inl e ↦ rw e (
            one k'
            ∙ ap
                (λ j.
                  if eq_func k k' then x else find hash_func eq_func eq_law k' (chain_at chains j))
                (sym (==→eq _ _ e)))
        | inr e ↦ elim (Bool-cases (eq_func k k')) [
          | inl same ↦
              let p : hash_func k' % cap ≡ hash_func k % cap =
                ap (λ a. hash_func a % cap) (sym ((eq_law k k').0 same)) in
              cc (e, eq→== (hash_func k' % cap) (hash_func k % cap) p)
          | inr other ↦ rw (e, other) refl
        ]
      ]

  after_put-present : (x : Option V) (n : ℕ) → x ≢ none → after_put x n ≡ n
  after_put-present none n ne = absurd (ne refl)
  after_put-present (some x) n ne = refl

  after_remove-present : (x : Option V) (n : ℕ) → x ≢ none → after_remove x n ≡ (true, n - 1)
  after_remove-present none n ne = absurd (ne refl)
  after_remove-present (some x) n ne = refl

  remove_absent :
      (m : K → Option V) (k k' : K) → m k ≡ none → m k' ≡ (if eq_func k k' then none else m k')
  remove_absent m k k' absent = elim (Bool-cases (eq_func k k')) [
    | inl e ↦ rw e (ap m (sym ((eq_law k k').0 e)) ∙ absent)
    | inr e ↦ rw e refl
  ]

  module _ {used : ℕ} {hm : HashMap K V} {m : K → Option V} {n : ℕ} (v : Holds used hm m n)
      (k : K) where
    bound : hash_func k % hm.chains_cap < length hm.chains
    bound = omega (arith, mod-lt (hash_func k) v.table.some_chain, v.table.wide)

    chain_ok :
        ChainOk hash_func eq_func eq_law hm.chains_cap
          (0 + hash_func k % hm.chains_cap)
          (chain_at hm.chains (hash_func k % hm.chains_cap))
    chain_ok =
        ChainOk-chain_at hash_func eq_func eq_law hm.chains_cap 0 (hash_func k % hm.chains_cap)
          hm.chains v.table.ok

    put_with :
        (x : V) (r : Option (List (Cell K V)))
        → used < 2 ^ 60
        → UpdateOk hash_func eq_func eq_law hm.chains_cap
            (0 + hash_func k % hm.chains_cap)
            k
            x
            (chain_at hm.chains (hash_func k % hm.chains_cap))
            r
        → Holds
            (suc used)
            (elim r [
              | some chain ↦ record hm {
                chains = set hm.chains (hash_func k % hm.chains_cap) chain;
              }
              | none ↦ hm_check_resize (record hm {
                chains = set hm.chains (hash_func k % hm.chains_cap) (
                    record { hash_val = hash_func k; key = k; value = x }
                    ∷ chain_at hm.chains (hash_func k % hm.chains_cap));
                num_keys = (hm.num_keys + 1) % size_mod;
              })
            ])
            (map_put eq_func m k x)
            (after_put (m k) n)
    unfolding place
    put_with x none small u =
        let p =
          place-Placed hash_func eq_func eq_law hm.chains_cap hm.chains
            (record { hash_val = hash_func k; key = k; value = x }) v.table refl u in
        let added : after_put (m k) n ≡ suc n = ap (λ o. after_put o n) (sym (v.found k) ∙ u) in
        let counted : (hm.num_keys + 1) % size_mod ≡ hm.num_keys + 1 =
          mod-eq_of_lt (omega (arith, v.keys, v.load)) in
        hm_check_resize-Holds (suc used) _ (map_put eq_func m k x) (after_put (m k) n)
          (record {
            table = p.table;
            found = λ k'. p.found k' ∙ ap (λ t. if eq_func k k' then some x else t) (v.found k');
            count = p.count ∙ ap suc v.count ∙ sym added;
            keys = counted ∙ omega (arith, v.keys, added);
            load = omega (arith, v.load, added);
            size = omega (arith, v.size);
          })
          (omega arith)
    put_with x (some ds) small u =
        let kept : after_put (m k) n ≡ n =
          after_put-present (m k) n (λ e. u.present (v.found k ∙ e)) in
        record {
          table = record {
            ok =
                TableOk-set hash_func eq_func eq_law hm.chains_cap 0 _ hm.chains ds v.table.ok
                  u.chain_ok;
            wide = length-set hm.chains _ ds ∙ v.table.wide;
            some_chain = v.table.some_chain;
          };
          found = λ k'.
              look-set_one hm.chains_cap hm.chains k (some x) ds bound u.found k'
              ∙ ap (λ t. if eq_func k k' then some x else t) (v.found k');
          count = omega (
            arith,
            count-set hm.chains (hash_func k % hm.chains_cap) ds bound,
            u.same_length,
            v.count,
            kept,
          );
          keys = v.keys ∙ sym kept;
          load = omega (arith, v.load, kept);
          size = omega (arith, v.size);
        }

    -- A put binds the key to the value, and counts it if it is new.
    pub hm_put-Holds :
        (x : V)
        → used < 2 ^ 60
        → Holds
            (suc used)
            (hm_put hash_func eq_func hm k x)
            (map_put eq_func m k x)
            (after_put (m k) n)
    unfolding hm_put
    hm_put-Holds x small =
        put_with x _ small
          (update_chain-Updated hash_func eq_func eq_law hm.chains_cap _ k x _ chain_ok)

    -- A get answers by the map.
    pub hm_get-found : hm_get hash_func eq_func hm k ≡ m k
    unfolding hm_get
    hm_get-found = v.found k

    remove_with :
        (r : Option (List (Cell K V)))
        → UnlinkOk hash_func eq_func eq_law hm.chains_cap
            (0 + hash_func k % hm.chains_cap)
            k
            (chain_at hm.chains (hash_func k % hm.chains_cap))
            r
        → used < 2 ^ 60
        → let s : Bool × HashMap K V = elim r [
          | none ↦ (false, hm)
          | some chain ↦ (
            true,
            record hm {
              chains = set hm.chains (hash_func k % hm.chains_cap) chain;
              num_keys = (hm.num_keys + size_mod - 1) % size_mod;
            },
          )
        ] in
          (s.0 ≡ (after_remove (m k) n).0)
          × Holds used s.1 (map_remove eq_func m k) (after_remove (m k) n).1
    remove_with none u small =
        let absent : m k ≡ none = sym (v.found k) ∙ u in
        rw (ap (λ o. after_remove o n) absent) (
          refl,
          record {
            table = v.table;
            found = λ k'. v.found k' ∙ remove_absent m k k' absent;
            count = v.count;
            keys = v.keys;
            load = v.load;
            size = v.size;
          },
        )
    remove_with (some ds) u small =
        let kept : after_remove (m k) n ≡ (true, n - 1) =
          after_remove-present (m k) n (λ e. u.present (v.found k ∙ e)) in
        let fewer : (hm.num_keys + size_mod - 1) % size_mod ≡ n - 1 = omega (
          arith,
          v.keys,
          v.load,
          u.shorter,
          v.count,
          count-set hm.chains (hash_func k % hm.chains_cap) ds bound,
        ) in
        rw kept (
          refl,
          record {
            table = record {
              ok =
                  TableOk-set hash_func eq_func eq_law hm.chains_cap 0 _ hm.chains ds v.table.ok
                    u.chain_ok;
              wide = length-set hm.chains _ ds ∙ v.table.wide;
              some_chain = v.table.some_chain;
            };
            found = λ k'.
                look-set_one hm.chains_cap hm.chains k none ds bound u.found k'
                ∙ ap (λ t. if eq_func k k' then none else t) (v.found k');
            count = omega (
              arith,
              count-set hm.chains (hash_func k % hm.chains_cap) ds bound,
              u.shorter,
              v.count,
            );
            keys = fewer;
            load = omega (arith, v.load);
            size = omega (arith, v.size);
          },
        )

    -- A remove says whether the key was there, and takes it out.
    pub hm_remove-Holds :
        used < 2 ^ 60
        → let s = hm_remove hash_func eq_func hm k in
          (s.0 ≡ (after_remove (m k) n).0)
          × Holds used s.1 (map_remove eq_func m k) (after_remove (m k) n).1
    unfolding hm_remove
    hm_remove-Holds small =
        remove_with _ (unlink_chain-Unlinked hash_func eq_func eq_law hm.chains_cap _ k _ chain_ok)
          small

  -- A hash map is refused exactly at a key size of 0 or a NULL function, and is otherwise well
  -- formed and empty.
  pub new_hash_map-Holds :
      (ks : ℕ) (no_hash no_eq : Bool) (ind : ℕ) (garbage : List (Cell K V))
      → ((new_hash_map ks no_hash no_eq ind garbage ≡ none)
          ↔ ((ks ≡ 0) ⊎ (no_hash ≡ true) ⊎ (no_eq ≡ true)))
        × ((hm : HashMap K V)
            → new_hash_map ks no_hash no_eq ind garbage ≡ some hm
            → Holds 0 hm (λ k. none) 0)
  unfolding new_hash_map
  new_hash_map-Holds ks no_hash no_eq ind garbage = (
    (λ e. ground arith, λ z. ground arith),
    λ hm e. elim (Bool-cases (ks == 0 || no_hash || no_eq)) [
      | inl bad ↦ cc (bad, e)
      | inr good ↦
          subst (λ h. Holds 0 h (λ k. none) 0) (some-injective _ _ (rw good at e))
            (record {
              table = record {
                ok = TableOk-replicate V hash_func eq_func eq_law 8 0 8;
                wide = refl;
                some_chain = omega arith;
              };
              found = λ k. look-replicate hash_func eq_func eq_law 8 (hash_func k % 8) k;
              count = ap length (count-replicate {A = Cell K V} 8);
              keys = refl;
              load = omega arith;
              size = omega arith;
            })
    ],
  )
