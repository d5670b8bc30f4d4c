-- ===== src/Chrpc/RpcServer.antt =====
-- The RPC server: chrpc/include/chrpc/rpc_server.h and chrpc/src/rpc_server.c. `S` is what the
-- server state points to and `C` the state of a channel, of an implementation that is a parameter.
-- The function of an endpoint, which the user gives, takes the state and gives the next one.
pub mod Endpoints
pub mod Lookup
pub mod Responding
pub mod Responses
pub mod Handling
pub mod Delivery
pub mod Outcomes
pub mod Answers
pub mod Arguments
pub mod Serving
pub mod Interleaving
pub mod Invariant
pub mod Reachable
mod Tests
use chlibs.Common.{
  ℕ, ◌+◌, ◌-◌, ◌*◌, ◌%◌, ◌^◌, Bool, true, false, Option, none, some, List, [], ◌∷◌, length, ltb,
  if◌then◌else◌,
}
use chlibs.Chrpc.SerialType.{
  Status, success, syntax_error, unexpected_end, buffer_too_small, empty_struct_type,
  struct_type_too_large, malformed_type, server_creation_error, server_full, unknown_endpoint,
  argument_mismatch, client_channel_empty, client_channel_error, bad_request, server_internal_error,
  disconnect, bad_response, client_creation_error, too_many_arguments, ChrpcType, prim, struct,
  array, no_fields, field, byte, str,
}
use chlibs.Chrpc.SerialValue.{Value, c_str}
use chlibs.Chutil.HashMap.{HashMap}
use chlibs.Chutil.Queue.{Queue}

abbrev pub endpoint_max_args : ℕ
endpoint_max_args = 10

abbrev pub endpoint_set_max_size : ℕ
endpoint_set_max_size = 300

abbrev pub server_buf_min_size : ℕ
server_buf_min_size = 128

pub data ServerCommand : Type 0 where
  sc_disconnect : ServerCommand
  sc_keep_alive : ServerCommand

-- `name` is the string without its NUL.
pub record Endpoint (S : Type 0) : Type 0 where
  pub name : List ℕ
  pub ret : Option ChrpcType
  pub args : List ChrpcType
  pub func : ℕ → S → List Value → ServerCommand × Option Value × S

pub record EndpointSet (S : Type 0) : Type 0 where
  pub name_map : HashMap (List ℕ) (Endpoint S)
  pub endpoints : List (Endpoint S)

-- The time that a worker sleeps is left out.
pub record ServerAttrs (S : Type 0) : Type 0 where
  pub max_msg_size : ℕ
  pub max_connections : ℕ
  pub num_workers : ℕ
  pub idle_timeout : ℕ
  pub on_disconnect : Option (ℕ → S → S)

pub record QueueEle (C : Type 0) : Type 0 where
  pub id : ℕ
  pub since_last_req : ℕ
  pub chn : C

pub record Server (S C : Type 0) : Type 0 where
  pub server_state : S
  pub attrs : ServerAttrs S
  pub id_counter : ℕ
  pub num_channels : ℕ
  pub queue : Queue (QueueEle C)
  pub should_exit : Bool
  pub ep_set : EndpointSet S
  pub req_type : ChrpcType
  pub resp_type : ChrpcType

-- the number of a status, as it is sent
abbrev pub status_code : Status → ℕ
status_code success = 0
status_code syntax_error = 1
status_code unexpected_end = 2
status_code buffer_too_small = 3
status_code empty_struct_type = 4
status_code struct_type_too_large = 5
status_code malformed_type = 6
status_code server_creation_error = 7
status_code server_full = 8
status_code unknown_endpoint = 9
status_code argument_mismatch = 10
status_code client_channel_empty = 11
status_code client_channel_error = 12
status_code bad_request = 13
status_code server_internal_error = 14
status_code disconnect = 15
status_code bad_response = 16
status_code client_creation_error = 17
status_code too_many_arguments = 18

-- { str; b8[][]; }: the name of an endpoint and its serialised arguments
abbrev pub request_type : ChrpcType
request_type = struct (field (prim str) (field (array (array (prim byte))) no_fields))

-- { b8; b8[]; }: a status and a serialised return value
abbrev pub response_type : ChrpcType
response_type = struct (field (prim byte) (field (array (prim byte)) no_fields))

module _ {S : Type 0} where
  unfoldable pub new_chrpc_endpoint :
      List ℕ
      → (ℕ → S → List Value → ServerCommand × Option Value × S)
      → Option ChrpcType
      → List ChrpcType
      → Option (Endpoint S)
  unfolding c_str
  new_chrpc_endpoint n f rt args =
      if ltb endpoint_max_args (length args)
      then none
      else some record { name = c_str n; ret = rt; args = args; func = f }

  -- The arguments in front of `NULL` are a list.
  unfoldable pub new_chrpc_endpoint_va :
      List ℕ
      → (ℕ → S → List Value → ServerCommand × Option Value × S)
      → Option ChrpcType
      → List ChrpcType
      → Option (Endpoint S)
  unfolding new_chrpc_endpoint
  new_chrpc_endpoint_va n f rt args = new_chrpc_endpoint n f rt args
