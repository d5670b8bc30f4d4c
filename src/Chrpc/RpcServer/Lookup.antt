-- ===== src/Chrpc/RpcServer/Lookup.antt =====
-- A set of endpoints is a finite map by name.
use chlibs.Common.{
  ℕ, ◌+◌, ◌^◌, ◌≤◌, ◌≡◌, ◌↔◌, refl, sym, ◌∙◌, ap, subst, Bool, true, false, Option, none, some,
  List, [], ◌∷◌, arith, length, ltb, ltb→lt, not-ltb, if◌then◌else◌, inl, inr, Bool-cases,
  Option-cases,
}
use chlibs.Chutil.HashMap.{Cell, HashMap, hm_get, hm_put}
use chlibs.Chutil.HashMap.Tables.{or_else, or_else-none}
use chlibs.Chutil.HashMap.Refines.{Holds, map_put, hm_put-Holds, hm_get-found, new_hash_map-Holds}
use chlibs.Chrpc.SerialValue.{c_str}
use chlibs.Chrpc.SerialValue.Blocks.{bytes_equal_iff}
use chlibs.Chrpc.RpcServer.{Endpoint, EndpointSet, endpoint_set_max_size}
use chlibs.Chrpc.RpcServer.Endpoints.{
  s_hash, s_equals, add_endpoints, new_chrpc_endpoint_set, chrpc_endpoint_set_lookup,
}

pub s_equals_iff : (a b : List ℕ) → (s_equals a b ≡ true) ↔ (a ≡ b)
unfolding s_equals
s_equals_iff = bytes_equal_iff

module _ {S : Type 0} where
  -- the first endpoint of a name
  abbrev pub named : List ℕ → List (Endpoint S) → Option (Endpoint S)
  named k [] = none
  named k (ep ∷ eps) = if s_equals ep.name k then some ep else named k eps

  -- No two endpoints have one name.
  abbrev pub Distinct : List (Endpoint S) → Type 0
  Distinct [] = Unit {0}
  Distinct (ep ∷ eps) = (named ep.name eps ≡ none) × Distinct eps

  -- No endpoint has a name that `m` has, or that an earlier one has.
  abbrev NewOver : (List ℕ → Option (Endpoint S)) → List (Endpoint S) → Type 0
  NewOver m [] = Unit {0}
  NewOver m (ep ∷ eps) = (m ep.name ≡ none) × NewOver (map_put s_equals m ep.name ep) eps

  -- The map after the loop, or a name that was there.
  abbrev AddedOk :
      (List ℕ → Option (Endpoint S))
      → List (Endpoint S)
      → Option (HashMap (List ℕ) (Endpoint S))
      → Type 0
  AddedOk m eps none = ¬ NewOver m eps
  AddedOk m eps (some hm) =
      NewOver m eps
      × (used : ℕ) × (n : ℕ) × Holds s_hash s_equals s_equals_iff used hm
          (λ k. or_else (m k) (named k eps)) n

  Holds-cong :
      {used : ℕ} {hm : HashMap (List ℕ) (Endpoint S)} {m m' : List ℕ → Option (Endpoint S)} {n : ℕ}
      → Holds s_hash s_equals s_equals_iff used hm m n
      → ((k : List ℕ) → m k ≡ m' k)
      → Holds s_hash s_equals s_equals_iff used hm m' n
  Holds-cong h e = record {
    table = h.table;
    found = λ k. h.found k ∙ e k;
    count = h.count;
    keys = h.keys;
    load = h.load;
    size = h.size;
  }

  put_then_named :
      (m : List ℕ → Option (Endpoint S)) (ep : Endpoint S) (eps : List (Endpoint S))
      → m ep.name ≡ none
      → (k : List ℕ)
      → or_else (map_put s_equals m ep.name ep k) (named k eps) ≡ or_else (m k) (named k (ep ∷ eps))
  put_then_named m ep eps new k = elim (Bool-cases (s_equals ep.name k)) [
    | inl e ↦
        let absent : m k ≡ none = ap m (sym ((s_equals_iff ep.name k).0 e)) ∙ new in
        rw (e, absent) refl
    | inr e ↦ rw e refl
  ]

  -- One turn of the loop.
  add_endpoints-step :
      (ep : Endpoint S) (eps : List (Endpoint S)) (hm : HashMap (List ℕ) (Endpoint S))
      (o : Option (Endpoint S))
      → hm_get s_hash s_equals hm ep.name ≡ o
      → add_endpoints hm (ep ∷ eps) ≡ (elim o [
        | none ↦ add_endpoints (hm_put s_hash s_equals hm ep.name ep) eps
        | some v ↦ none
      ])
  unfolding add_endpoints
  add_endpoints-step ep eps hm o e =
      ap
        (λ r.
          let b : Bool = elim r [ none ↦ false | some v ↦ true ] in
          if b then none else add_endpoints (hm_put s_hash s_equals hm ep.name ep) eps)
        e
      ∙ both o
    where
      both :
          (r : Option (Endpoint S))
          → (let b : Bool = elim r [ none ↦ false | some v ↦ true ] in
              if b then none else add_endpoints (hm_put s_hash s_equals hm ep.name ep) eps)
            ≡ (elim r [
              | none ↦ add_endpoints (hm_put s_hash s_equals hm ep.name ep) eps
              | some v ↦ none
            ])
      both none = refl
      both (some v) = refl

  add_endpoints-nil : (hm : HashMap (List ℕ) (Endpoint S)) → add_endpoints hm [] ≡ some hm
  unfolding add_endpoints
  add_endpoints-nil hm = refl

  Added-later :
      (m : List ℕ → Option (Endpoint S)) (ep : Endpoint S) (eps : List (Endpoint S))
      (r : Option (HashMap (List ℕ) (Endpoint S)))
      → m ep.name ≡ none
      → AddedOk (map_put s_equals m ep.name ep) eps r
      → AddedOk m (ep ∷ eps) r
  Added-later m ep eps none new bad = λ h. bad h.1
  Added-later m ep eps (some hm) new (rest, used, n, h) =
      ((new, rest), used, n, Holds-cong h (put_then_named m ep eps new))

  add_endpoints-Added :
      (eps : List (Endpoint S)) {used n : ℕ} (hm : HashMap (List ℕ) (Endpoint S))
      (m : List ℕ → Option (Endpoint S))
      → Holds s_hash s_equals s_equals_iff used hm m n
      → used + length eps ≤ 2 ^ 60
      → AddedOk m eps (add_endpoints hm eps)
  add_endpoints-Added [] {used} {n} hm m h small =
      subst (AddedOk m []) (sym (add_endpoints-nil hm))
        (tt, used, n, Holds-cong h λ k. sym (or_else-none (m k)))
  add_endpoints-Added (ep ∷ eps) {used} {n} hm m h small =
      let found = hm_get-found s_hash s_equals s_equals_iff h ep.name in
      elim (Option-cases (m ep.name)) [
        | inr (x, e) ↦
            subst (AddedOk m (ep ∷ eps)) (sym (add_endpoints-step ep eps hm (some x) (found ∙ e)))
              (λ new. cc (new.0, e))
        | inl e ↦
            let put = hm_put-Holds s_hash s_equals s_equals_iff h ep.name ep (omega arith) in
            subst (AddedOk m (ep ∷ eps)) (sym (add_endpoints-step ep eps hm none (found ∙ e))) (
              Added-later m ep eps _ e (
                add_endpoints-Added eps (hm_put s_hash s_equals hm ep.name ep)
                  (map_put s_equals m ep.name ep) put (omega arith)))
      ]

  -- No endpoint has a name that `m` has.
  abbrev AllFresh : (List ℕ → Option (Endpoint S)) → List (Endpoint S) → Type 0
  AllFresh m [] = Unit {0}
  AllFresh m (ep ∷ eps) = (m ep.name ≡ none) × AllFresh m eps

  fresh_after_put :
      (m : List ℕ → Option (Endpoint S)) (k : List ℕ) (x : Endpoint S) (eps : List (Endpoint S))
      → AllFresh (map_put s_equals m k x) eps ↔ (AllFresh m eps × (named k eps ≡ none))
  fresh_after_put m k x [] = (λ h. (tt, refl), λ h. tt)
  fresh_after_put m k x (ep ∷ eps) =
      let more = fresh_after_put m k x eps in
      elim (Bool-cases (s_equals k ep.name)) [
        | inl e ↦
            let back : s_equals ep.name k ≡ true =
              (s_equals_iff ep.name k).1 (sym ((s_equals_iff k ep.name).0 e)) in
            rw (e, back) (λ h. let c = h.0 in cc, λ h. let c = h.1 in cc)
        | inr e ↦
            let other : s_equals ep.name k ≡ false = not_back k ep.name e in
            rw (e, other)
              (λ h. let r = more.0 h.1 in ((h.0, r.0), r.1), λ h. (h.0.0, more.1 (h.0.1, h.1)))
      ]
    where
      not_back : (a b : List ℕ) → s_equals a b ≡ false → s_equals b a ≡ false
      not_back a b e = elim (Bool-cases (s_equals b a)) [
        | inl f ↦ cc (e, (s_equals_iff a b).1 (sym ((s_equals_iff b a).0 f)))
        | inr f ↦ f
      ]

  NewOver-iff :
      (m : List ℕ → Option (Endpoint S)) (eps : List (Endpoint S))
      → NewOver m eps ↔ (AllFresh m eps × Distinct eps)
  NewOver-iff m [] = (λ h. (tt, tt), λ h. tt)
  NewOver-iff m (ep ∷ eps) =
      let more = NewOver-iff (map_put s_equals m ep.name ep) eps in
      let fresh = fresh_after_put m ep.name ep eps in
      (
        λ h. let r = more.0 h.1 in let f = fresh.0 r.0 in ((h.0, f.0), (f.1, r.1)),
        λ h. (h.0.0, more.1 (fresh.1 (h.0.1, h.1.0), h.1.1)),
      )

  AllFresh-empty : (eps : List (Endpoint S)) → AllFresh (λ k. none) eps
  AllFresh-empty [] = tt
  AllFresh-empty (ep ∷ eps) = (refl, AllFresh-empty eps)

  Distinct-iff : (eps : List (Endpoint S)) → NewOver (λ k. none) eps ↔ Distinct eps
  Distinct-iff eps =
      let r = NewOver-iff (λ k. none) eps in (λ h. (r.0 h).1, λ h. r.1 (AllFresh-empty eps, h))

  abbrev Sized : List (Endpoint S) → Type 0
  Sized eps = (1 ≤ length eps) × (length eps ≤ endpoint_set_max_size) × Distinct eps

  abbrev MadeOk : List (Endpoint S) → Option (EndpointSet S) → Type 0
  MadeOk eps none = ¬ Sized eps
  MadeOk eps (some set) =
      Sized eps
      × (used : ℕ) × (n : ℕ) × Holds s_hash s_equals s_equals_iff used set.name_map
          (λ k. named k eps) n

  abbrev with_map :
      List (Endpoint S) → Option (HashMap (List ℕ) (Endpoint S)) → Option (EndpointSet S)
  with_map eps none = none
  with_map eps (some hm) = some record { name_map = hm; endpoints = eps }

  made_of :
      (eps : List (Endpoint S)) (r : Option (HashMap (List ℕ) (Endpoint S)))
      → 1 ≤ length eps
      → length eps ≤ endpoint_set_max_size
      → AddedOk (λ k. none) eps r
      → MadeOk eps (with_map eps r)
  made_of eps none low high bad = λ h. bad ((Distinct-iff eps).1 h.2)
  made_of eps (some hm) low high (new, used, n, h) =
      ((low, high, (Distinct-iff eps).0 new), used, n, h)

  new_chrpc_endpoint_set-Made :
      (ind : ℕ) (garbage : List (Cell (List ℕ) (Endpoint S))) (eps : List (Endpoint S))
      → MadeOk eps (new_chrpc_endpoint_set ind garbage eps)
  unfolding new_chrpc_endpoint_set
  new_chrpc_endpoint_set-Made ind garbage eps = elim (Bool-cases (ltb (length eps) 1)) [
    | inl e ↦ rw e (λ h. absurd (omega (arith, h.0, ltb→lt _ _ e)))
    | inr e ↦ elim (Bool-cases (ltb endpoint_set_max_size (length eps))) [
      | inl f ↦ rw (e, f) (λ h. absurd (omega (arith, h.1, ltb→lt _ _ f)))
      | inr f ↦
          let low = not-ltb _ _ e in
          let high = not-ltb _ _ f in
          let empty =
            (new_hash_map-Holds s_hash s_equals s_equals_iff 8 false false ind garbage).1 _ refl in
          rw (e, f)
            (made_of eps _ low high (add_endpoints-Added eps _ (λ k. none) empty (omega arith)))
    ]
  ]

  -- A set that was made of a list of endpoints finds for a name the first endpoint of that name in
  -- the list, or NULL if there is none.
  pub chrpc_endpoint_set_lookup-named :
      (ind : ℕ) (garbage : List (Cell (List ℕ) (Endpoint S))) (eps : List (Endpoint S))
      (set : EndpointSet S) (name : List ℕ)
      → new_chrpc_endpoint_set ind garbage eps ≡ some set
      → chrpc_endpoint_set_lookup set name ≡ named (c_str name) eps
  unfolding chrpc_endpoint_set_lookup
  chrpc_endpoint_set_lookup-named ind garbage eps set name e =
      let (sized, used, n, h) =
        subst (MadeOk eps) e (new_chrpc_endpoint_set-Made ind garbage eps) in
      hm_get-found s_hash s_equals s_equals_iff h (c_str name)

  -- A set of endpoints is made exactly of 1 to 300 endpoints with distinct names.
  pub new_chrpc_endpoint_set_iff :
      (ind : ℕ) (garbage : List (Cell (List ℕ) (Endpoint S))) (eps : List (Endpoint S))
      → ((set : EndpointSet S) × (new_chrpc_endpoint_set ind garbage eps ≡ some set))
        ↔ ((1 ≤ length eps) × (length eps ≤ endpoint_set_max_size) × Distinct eps)
  new_chrpc_endpoint_set_iff ind garbage eps =
      let made = new_chrpc_endpoint_set-Made ind garbage eps in
      (
        λ (set, e). let m = subst (MadeOk eps) e made in m.0,
        λ sized. elim (Option-cases (new_chrpc_endpoint_set ind garbage eps)) [
          | inl e ↦ absurd ((subst (MadeOk eps) e made) sized)
          | inr found ↦ found
        ],
      )
