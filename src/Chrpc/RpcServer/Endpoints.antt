-- ===== src/Chrpc/RpcServer/Endpoints.antt =====
-- Sets of endpoints: chrpc/src/rpc_server.c, with the hash of strings of chutil/src/string.c. A
-- string is the list of its characters, and a `char` is signed.
use chlibs.Common.{
  ℕ, ◌+◌, ◌-◌, ◌*◌, ◌%◌, ◌^◌, Bool, true, false, ◌||◌, Option, none, some, List, [], ◌∷◌, length,
  ltb, if◌then◌else◌,
}
use chlibs.Chutil.HashMap.{Cell, HashMap, new_hash_map, hm_get, hm_put}
use chlibs.Chrpc.SerialValue.{c_str}
use chlibs.Chrpc.SerialValue.Comparing.{bytes_equal}
use chlibs.Chrpc.RpcServer.{Endpoint, EndpointSet, endpoint_set_max_size}

-- a `char` in a sum of 32 bits
abbrev pub sign_extend : ℕ → ℕ
sign_extend c = if ltb c 128 then c else c + (2 ^ 32 - 256)

-- the loop of `s_hash`
unfoldable pub hash_chars : ℕ → List ℕ → ℕ
hash_chars hash_val [] = hash_val
hash_chars hash_val (c ∷ cs) = hash_chars ((hash_val * 31 + sign_extend c) % 2 ^ 32) cs

unfoldable pub s_hash : List ℕ → ℕ
unfolding hash_chars
s_hash s = hash_chars 23 s

-- `strcmp` gives 0
unfoldable pub s_equals : List ℕ → List ℕ → Bool
unfolding bytes_equal
s_equals s1 s2 = bytes_equal s1 s2

module _ {K V : Type 0} (hash_func : K → ℕ) (eq_func : K → K → Bool) where
  unfoldable pub hm_contains : HashMap K V → K → Bool
  unfolding hm_get
  hm_contains hm key = elim (hm_get hash_func eq_func hm key) [ none ↦ false | some v ↦ true ]

module _ {S : Type 0} where
  -- the loop that puts the endpoints into the map; `none` at a name that is there
  unfoldable pub add_endpoints :
      HashMap (List ℕ) (Endpoint S) → List (Endpoint S) → Option (HashMap (List ℕ) (Endpoint S))
  unfolding hm_contains
  add_endpoints hm [] = some hm
  add_endpoints hm (ep ∷ eps) =
      let rest = add_endpoints (hm_put s_hash s_equals hm ep.name ep) eps in
      if hm_contains s_hash s_equals hm ep.name then none else rest

  -- `ind` and `garbage` are what `malloc` gave for the iterator of the map.
  unfoldable pub new_chrpc_endpoint_set :
      ℕ → List (Cell (List ℕ) (Endpoint S)) → List (Endpoint S) → Option (EndpointSet S)
  unfolding add_endpoints new_hash_map
  new_chrpc_endpoint_set ind garbage eps =
      if ltb (length eps) 1 || ltb endpoint_set_max_size (length eps)
      then none
      else elim (new_hash_map 8 false false ind garbage) [
        | none ↦ none
        | some hm ↦ elim (add_endpoints hm eps) [
          | none ↦ none
          | some hm' ↦ some record { name_map = hm'; endpoints = eps }
        ]
      ]

  -- The arguments in front of `NULL` are a list.
  unfoldable pub new_chrpc_endpoint_set_va :
      ℕ → List (Cell (List ℕ) (Endpoint S)) → List (Endpoint S) → Option (EndpointSet S)
  unfolding new_chrpc_endpoint_set
  new_chrpc_endpoint_set_va ind garbage eps = new_chrpc_endpoint_set ind garbage eps

  unfoldable pub chrpc_endpoint_set_lookup : EndpointSet S → List ℕ → Option (Endpoint S)
  unfolding hm_get c_str s_hash s_equals
  chrpc_endpoint_set_lookup ep_set name = hm_get s_hash s_equals ep_set.name_map (c_str name)
