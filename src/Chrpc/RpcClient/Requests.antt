-- ===== src/Chrpc/RpcClient/Requests.antt =====
-- What the client writes is what the server reads.
use chlibs.Common.{
  ℕ, suc, ◌+◌, ◌-◌, ◌^◌, ◌≤◌, ◌<◌, ◌≡◌, refl, sym, ◌∙◌, ap, ap₂, some, List, [], ◌∷◌, ◌++◌, arith,
  map, length, length-append, append-nil, take_all, le→not-ltb,
}
use chlibs.Chrpc.ChannelFd.{u32_bytes}
use chlibs.Chrpc.SerialType.{success, ok, prim, array, byte}
use chlibs.Chrpc.SerialType.Encoding.{encode_type}
use chlibs.Chrpc.SerialType.Writes.{chrpc_type_to_buffer-encode}
use chlibs.Chrpc.SerialType.Equality.{chrpc_type_equals_iff}
use chlibs.Chrpc.SerialValue.{
  num_arr, text, array_entries, struct_entries, entry, Entries, no_entries, Value, c_str, strlen,
  count,
}
use chlibs.Chrpc.SerialValue.Encoding.{encode_value, encode_str, encode_entries, HasType, AllOf}
use chlibs.Chrpc.SerialValue.Reading.{chrpc_value_from_buffer}
use chlibs.Chrpc.SerialValue.Making.{str_copy}
use chlibs.Chrpc.SerialValue.Made.{AllProper}
use chlibs.Chrpc.SerialValue.RoundTrip.{
  IsProper, encode_pair, chrpc_value_from_buffer-encode, chrpc_value_to_buffer_with_length-encode,
}
use chlibs.Chrpc.RpcServer.{request_type}
use chlibs.Chrpc.RpcServer.Handling.{endpoint_name, arg_arrays, parse_args}
use chlibs.Chrpc.RpcClient.{name_to_buffer, num_args_to_buffer, args_to_buffer, request_to_buffer}

-- the serialised arguments
abbrev pub arg_entries : List Value → Entries
arg_entries [] = no_entries
arg_entries (a ∷ args) = entry (num_arr (length (encode_pair a)) (encode_pair a)) (arg_entries args)

-- what the request means
abbrev pub request_value : List ℕ → List Value → Value
request_value name args = record {
  type = request_type;
  value =
      struct_entries (
        entry (text (c_str name ++ (0 ∷ [])))
          (entry (array_entries (arg_entries args)) no_entries));
}

abbrev pub AllSmall : List Value → Type 0
AllSmall [] = Unit {0}
AllSmall (a ∷ args) = (length (encode_pair a) < 2 ^ 32) × AllSmall args

count-arg_entries : (args : List Value) → count (arg_entries args) ≡ length args
count-arg_entries [] = refl
count-arg_entries (a ∷ args) = ap suc (count-arg_entries args)

writes_args :
    (args : List Value) (n pos : ℕ)
    → AllProper args
    → pos + length (encode_entries (arg_entries args)) ≤ n
    → args_to_buffer args n pos ≡ (
      success,
      encode_entries (arg_entries args),
      some (pos + length (encode_entries (arg_entries args))),
    )
unfolding args_to_buffer encode_value u32_bytes
writes_args [] n pos h room = ap (λ k. (success, [], some k)) (omega arith)
writes_args (a ∷ args) n pos h room =
    let first = u32_bytes (length (encode_pair a)) ++ encode_pair a in
    let split = length-append first (encode_entries (arg_entries args)) in
    rw
      (
        chrpc_value_to_buffer_with_length-encode (some a) [] (n - pos) h.0 (omega arith),
        writes_args args n (pos + (4 + length (encode_pair a))) h.1 (omega arith),
      )
      (ap (λ k. (success, first ++ encode_entries (arg_entries args), some k)) (omega arith))

length-name : (name : List ℕ) → length (c_str name ++ (0 ∷ [])) ≡ strlen name + 1
unfolding strlen
length-name name = length-append (c_str name) (0 ∷ [])

-- the parts of a request, as they are written
abbrev request_bytes : List ℕ → List Value → List ℕ
request_bytes name args =
    encode_type request_type
    ++ ((u32_bytes (strlen name + 1) ++ (c_str name ++ (0 ∷ [])))
        ++ (u32_bytes (length args) ++ encode_entries (arg_entries args)))

request_bytes-eq :
    (name : List ℕ) (args : List Value)
    → request_bytes name args ≡ encode_pair (request_value name args)
unfolding encode_value encode_str
request_bytes-eq name args =
    let cells = encode_entries (arg_entries args) in
    ap (λ bs. encode_type request_type ++ bs)
      (ap₂ (λ k bs. (u32_bytes k ++ (c_str name ++ (0 ∷ []))) ++ bs) (sym (length-name name))
        (ap (λ k. u32_bytes k ++ cells) (sym (count-arg_entries args))
          ∙ sym (append-nil (u32_bytes (count (arg_entries args)) ++ cells))))

length-request_bytes :
    (name : List ℕ) (args : List Value)
    → length (request_bytes name args)
      ≡ 6 + (4 + (strlen name + 1)) + 4 + length (encode_entries (arg_entries args))
unfolding encode_type u32_bytes
length-request_bytes name args = omega (
  arith,
  length-name name,
  length-append (c_str name ++ (0 ∷ []))
      (u32_bytes (length args) ++ encode_entries (arg_entries args)),
)

-- A request that has room in the buffer is the encoding of its value.
request_to_buffer-encode :
    (name : List ℕ) (args : List Value) (n : ℕ)
    → AllProper args
    → length (request_bytes name args) ≤ n
    → request_to_buffer request_type name args n
      ≡ (success, request_bytes name args, some (length (request_bytes name args)))
unfolding request_to_buffer name_to_buffer num_args_to_buffer encode_type u32_bytes
request_to_buffer-encode name args n h room =
    let len = length-request_bytes name args in
    rw
      (
        chrpc_type_to_buffer-encode request_type n (omega arith),
        le→not-ltb (n - 6) (4 + (strlen name + 1)) (omega arith),
        le→not-ltb (n - (6 + (4 + (strlen name + 1)))) 4 (omega arith),
        writes_args args n (6 + (4 + (strlen name + 1)) + 4) h (omega arith),
      )
      (ap (λ k. (success, request_bytes name args, some k)) (sym len))

pub request_to_buffer-encode_pair :
    (name : List ℕ) (args : List Value) (n : ℕ)
    → AllProper args
    → length (encode_pair (request_value name args)) ≤ n
    → let bytes = encode_pair (request_value name args) in
      request_to_buffer request_type name args n ≡ (success, bytes, some (length bytes))
request_to_buffer-encode_pair name args n h room =
    let same = request_bytes-eq name args in
    rw (request_to_buffer-encode name args n h (omega (arith, ap length same)), same) refl

arg_entries_typed :
    (args : List Value) → AllSmall args → AllOf (array (prim byte)) (arg_entries args)
arg_entries_typed [] h = tt
arg_entries_typed (a ∷ args) h = ((refl, h.0, omega arith), arg_entries_typed args h.1)

-- the bytes of all arguments
abbrev pub arg_bytes : List Value → ℕ
arg_bytes [] = 0
arg_bytes (a ∷ args) = length (encode_pair a) + arg_bytes args

pub one_read_back :
    (a : Value)
    → IsProper a
    → chrpc_value_from_buffer (encode_pair a) ≡ ok a (length (encode_pair a))
one_read_back a h =
    ap chrpc_value_from_buffer (sym (append-nil (encode_pair a)))
    ∙ chrpc_value_from_buffer-encode a [] h.0 h.1

parse_args-arg_entries :
    (args : List Value)
    → AllProper args
    → parse_args (map (λ a. a.type) args) (arg_entries args) ≡ ok args (arg_bytes args)
unfolding parse_args
parse_args-arg_entries [] h = refl
parse_args-arg_entries (a ∷ args) h =
    rw
      (
        take_all (encode_pair a),
        one_read_back a h.0,
        (chrpc_type_equals_iff a.type a.type).1 refl,
        parse_args-arg_entries args h.1,
      )
      refl

-- The request that a client puts together of at most 255 proper arguments of short encodings, and
-- a short name, in a buffer that has room, is read by the server whatever bytes follow as a
-- request of that name, whose arguments parse to those that were given when the types of the
-- endpoint are theirs.
pub parse_args-request_to_buffer :
    (name : List ℕ) (args : List Value) (n : ℕ) (rest : List ℕ)
    → AllProper args
    → AllSmall args
    → length args < 256
    → strlen name + 1 < 2 ^ 32
    → length (encode_pair (request_value name args)) ≤ n
    → let (status, bytes, written) = request_to_buffer request_type name args n in
      let req = request_value name args in
      (status ≡ success)
      × (written ≡ some (length bytes))
      × (chrpc_value_from_buffer (bytes ++ rest) ≡ ok req (length bytes))
      × (endpoint_name req.value ≡ str_copy name)
      × (parse_args (map (λ a. a.type) args) (arg_arrays req.value) ≡ ok args (arg_bytes args))
unfolding str_copy
parse_args-request_to_buffer name args n rest h small few short room =
    let len = length-name name in
    let cells = count-arg_entries args in
    let req = request_value name args in
    let typed : HasType req.type req.value =
      ((refl, omega arith), ((omega arith, arg_entries_typed args small), tt)) in
    rw (request_to_buffer-encode_pair name args n h room) (
      refl,
      refl,
      chrpc_value_from_buffer-encode req rest (omega arith, omega arith, (tt, (tt, tt))) typed,
      refl,
      parse_args-arg_entries args h,
    )
