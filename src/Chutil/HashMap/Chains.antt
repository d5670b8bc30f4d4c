-- ===== src/Chutil/HashMap/Chains.antt =====
-- The loops of the hash map over one chain.
use chlibs.Common.{
  ℕ, suc, ◌%◌, ◌≡◌, ◌≢◌, ◌↔◌, refl, sym, ◌∙◌, ap, Bool, true, false, ◌&&◌, Option, none, some, List,
  [], ◌∷◌, length, ◌==◌, if◌then◌else◌, Bool-cases, inl, inr, eq→==,
}
use chlibs.Chutil.HashMap.{Cell, hits, find_value, update_chain, unlink_chain}

module _ {K : Type 0} (eq_func : K → K → Bool)
    (eq_law : (a b : K) → (eq_func a b ≡ true) ↔ (a ≡ b)) where
  pub eq_func_self : (k : K) → eq_func k k ≡ true
  eq_func_self k = (eq_law k k).1 refl

  pub eq_func-ne : (a b : K) → a ≢ b → eq_func a b ≡ false
  eq_func-ne a b ne = elim (Bool-cases (eq_func a b)) [
    | inl e ↦ absurd (ne ((eq_law a b).0 e))
    | inr e ↦ e
  ]

  pub eq_func-false : (a b : K) → eq_func a b ≡ false → a ≢ b
  eq_func-false a b e p = cc ((eq_law a b).1 p)

if_if :
    {A : Type 0} (b : Bool) (x y z : A)
    → (if b then x else z) ≡ (if b then x else if b then y else z)
if_if true x y z = refl
if_if false x y z = refl

if_swap :
    {A : Type 0} (a b : Bool) (x y z : A)
    → (a ≡ true → b ≡ false)
    → (if a then x else if b then y else z) ≡ (if b then y else if a then x else z)
if_swap true true x y z h = cc (h refl)
if_swap true false x y z h = refl
if_swap false b x y z h = refl

module _ {K V : Type 0} (hash_func : K → ℕ) (eq_func : K → K → Bool)
    (eq_law : (a b : K) → (eq_func a b ≡ true) ↔ (a ≡ b)) where
  abbrev pub find : K → List (Cell K V) → Option V
  find k chain = find_value hash_func eq_func (hash_func k) k chain

  -- A chain at index `i` of a table of `cap` chains: the headers carry their keys' hash values, which
  -- lead to that index, and no key comes twice.
  abbrev pub ChainOk : (cap i : ℕ) → List (Cell K V) → Type 0
  ChainOk cap i [] = Unit {0}
  ChainOk cap i (c ∷ cs) =
      (c.hash_val ≡ hash_func c.key)
      × (c.hash_val % cap ≡ i)
      × (find c.key cs ≡ none)
      × ChainOk cap i cs

  -- At a header with its key's hash value the test compares the keys.
  pub hits-eq_func :
      (k : K) (c : Cell K V)
      → c.hash_val ≡ hash_func c.key
      → hits hash_func eq_func (hash_func k) k c ≡ eq_func c.key k
  hits-eq_func k c h = elim (Bool-cases (eq_func c.key k)) [
    | inl e ↦
        let same : (c.hash_val == hash_func k) ≡ true =
          eq→== _ _ (h ∙ ap hash_func ((eq_law c.key k).0 e)) in
        rw (same, e) refl
    | inr e ↦ rw e (and_false (c.hash_val == hash_func k))
  ]
    where
      and_false : (b : Bool) → (b && false) ≡ false
      and_false true = refl
      and_false false = refl

  pub find-cons :
      (k : K) (c : Cell K V) (cs : List (Cell K V))
      → c.hash_val ≡ hash_func c.key
      → find k (c ∷ cs) ≡ (if eq_func c.key k then some c.value else find k cs)
  unfolding find_value
  find-cons k c cs h = ap (λ b. if b then some c.value else find k cs) (hits-eq_func k c h)

  -- what `hm_put` does to a chain that has the key
  pub record Updated (cap i : ℕ) (k : K) (v : V) (chain ds : List (Cell K V)) : Type 0 where
    pub found : (k' : K) → find k' ds ≡ (if eq_func k k' then some v else find k' chain)
    pub present : find k chain ≢ none
    pub chain_ok : ChainOk cap i ds
    pub same_length : length ds ≡ length chain

  abbrev pub UpdateOk : (cap i : ℕ) → K → V → List (Cell K V) → Option (List (Cell K V)) → Type 0
  UpdateOk cap i k v chain none = find k chain ≡ none
  UpdateOk cap i k v chain (some ds) = Updated cap i k v chain ds

  -- what `hm_remove` does to a chain that has the key
  pub record Unlinked (cap i : ℕ) (k : K) (chain ds : List (Cell K V)) : Type 0 where
    pub found : (k' : K) → find k' ds ≡ (if eq_func k k' then none else find k' chain)
    pub present : find k chain ≢ none
    pub chain_ok : ChainOk cap i ds
    pub shorter : length chain ≡ suc (length ds)

  abbrev pub UnlinkOk : (cap i : ℕ) → K → List (Cell K V) → Option (List (Cell K V)) → Type 0
  UnlinkOk cap i k chain none = find k chain ≡ none
  UnlinkOk cap i k chain (some ds) = Unlinked cap i k chain ds

  module _ (cap i : ℕ) (k : K) (v : V) (c : Cell K V) (cs : List (Cell K V))
      (h : c.hash_val ≡ hash_func c.key) (at : c.hash_val % cap ≡ i) (fresh : find c.key cs ≡ none)
      (ok : ChainOk cap i cs) where
    update_hit : c.key ≡ k → Updated cap i k v (c ∷ cs) (record c { value = v } ∷ cs)
    update_hit e = record {
      found = λ k'.
          find-cons k' (record c { value = v }) cs h
          ∙ ap (λ a. if eq_func a k' then some v else find k' cs) e
          ∙ if_if (eq_func k k') (some v) (some c.value) (find k' cs)
          ∙ ap
              (λ a.
                if eq_func k k' then some v else if eq_func a k' then some c.value else find k' cs)
              (sym e)
          ∙ ap (λ t. if eq_func k k' then some v else t) (sym (find-cons k' c cs h));
      present = λ none_found. cc (find-cons k c cs h, (eq_law c.key k).1 e, none_found);
      chain_ok = (h, at, fresh, ok);
      same_length = refl;
    }

    update_miss :
        c.key ≢ k
        → (r : Option (List (Cell K V))) → UpdateOk cap i k v cs r
        → UpdateOk cap i k v (c ∷ cs) (elim r [ none ↦ none | some ds ↦ some (c ∷ ds) ])
    update_miss ne none u = find-cons k c cs h ∙ rw (eq_func-ne eq_func eq_law c.key k ne) u
    update_miss ne (some ds) u = record {
      found = λ k'.
          find-cons k' c ds h
          ∙ ap (λ t. if eq_func c.key k' then some c.value else t) (u.found k')
          ∙ if_swap (eq_func c.key k') (eq_func k k') (some c.value) (some v) (find k' cs)
              (λ p. eq_func-ne eq_func eq_law k k' (λ q. ne ((eq_law c.key k').0 p ∙ sym q)))
          ∙ ap (λ t. if eq_func k k' then some v else t) (sym (find-cons k' c cs h));
      present = λ none_found.
          u.present (
            sym (find-cons k c cs h ∙ rw (eq_func-ne eq_func eq_law c.key k ne) refl) ∙ none_found);
      chain_ok = (
        h,
        at,
        u.found c.key ∙ rw (eq_func-ne eq_func eq_law k c.key (λ p. ne (sym p))) fresh,
        u.chain_ok,
      );
      same_length = ap suc u.same_length;
    }

  module _ (cap i : ℕ) (k : K) (c : Cell K V) (cs : List (Cell K V))
      (h : c.hash_val ≡ hash_func c.key) (at : c.hash_val % cap ≡ i) (fresh : find c.key cs ≡ none)
      (ok : ChainOk cap i cs) where
    -- what `hm_remove` does to a chain that begins with the key
    unlink_hit : c.key ≡ k → Unlinked cap i k (c ∷ cs) cs
    unlink_hit e = record {
      found = λ k'. elim (Bool-cases (eq_func k k')) [
        | inl p ↦ rw p (ap (λ a. find a cs) (sym ((eq_law k k').0 p) ∙ sym e) ∙ fresh)
        | inr p ↦ rw p (sym (find-cons k' c cs h ∙ rw (e, p) refl))
      ];
      present = λ none_found. cc (find-cons k c cs h, (eq_law c.key k).1 e, none_found);
      chain_ok = ok;
      shorter = refl;
    }

    unlink_miss :
        c.key ≢ k
        → (r : Option (List (Cell K V))) → UnlinkOk cap i k cs r
        → UnlinkOk cap i k (c ∷ cs) (elim r [ none ↦ none | some ds ↦ some (c ∷ ds) ])
    unlink_miss ne none u = find-cons k c cs h ∙ rw (eq_func-ne eq_func eq_law c.key k ne) u
    unlink_miss ne (some ds) u = record {
      found = λ k'.
          find-cons k' c ds h
          ∙ ap (λ t. if eq_func c.key k' then some c.value else t) (u.found k')
          ∙ if_swap (eq_func c.key k') (eq_func k k') (some c.value) none (find k' cs)
              (λ p. eq_func-ne eq_func eq_law k k' (λ q. ne ((eq_law c.key k').0 p ∙ sym q)))
          ∙ ap (λ t. if eq_func k k' then none else t) (sym (find-cons k' c cs h));
      present = λ none_found.
          u.present (
            sym (find-cons k c cs h ∙ rw (eq_func-ne eq_func eq_law c.key k ne) refl) ∙ none_found);
      chain_ok = (
        h,
        at,
        u.found c.key ∙ rw (eq_func-ne eq_func eq_law k c.key (λ p. ne (sym p))) fresh,
        u.chain_ok,
      );
      shorter = ap suc u.shorter;
    }

  pub update_chain-Updated :
      (cap i : ℕ) (k : K) (v : V) (chain : List (Cell K V))
      → ChainOk cap i chain
      → UpdateOk cap i k v chain (update_chain hash_func eq_func (hash_func k) k v chain)
  unfolding update_chain find_value
  update_chain-Updated cap i k v [] ok = refl
  update_chain-Updated cap i k v (c ∷ cs) (h, at, fresh, ok) = elim (Bool-cases (eq_func c.key k)) [
    | inl e ↦
        rw (hits-eq_func k c h ∙ e) (update_hit cap i k v c cs h at fresh ok ((eq_law c.key k).0 e))
    | inr e ↦ rw (hits-eq_func k c h ∙ e) (
        update_miss cap i k v c cs h at fresh ok (eq_func-false eq_func eq_law c.key k e)
          (update_chain hash_func eq_func (hash_func k) k v cs)
          (update_chain-Updated cap i k v cs ok))
  ]

  pub unlink_chain-Unlinked :
      (cap i : ℕ) (k : K) (chain : List (Cell K V))
      → ChainOk cap i chain
      → UnlinkOk cap i k chain (unlink_chain hash_func eq_func (hash_func k) k chain)
  unfolding unlink_chain find_value
  unlink_chain-Unlinked cap i k [] ok = refl
  unlink_chain-Unlinked cap i k (c ∷ cs) (h, at, fresh, ok) = elim (Bool-cases (eq_func c.key k)) [
    | inl e ↦
        rw (hits-eq_func k c h ∙ e) (unlink_hit cap i k c cs h at fresh ok ((eq_law c.key k).0 e))
    | inr e ↦ rw (hits-eq_func k c h ∙ e) (
        unlink_miss cap i k c cs h at fresh ok (eq_func-false eq_func eq_law c.key k e)
          (unlink_chain hash_func eq_func (hash_func k) k cs) (unlink_chain-Unlinked cap i k cs ok))
  ]
