-- ===== src/Ipc.antt =====
-- The protocol between the server and the enclave process: VPN/include/ipc_protocol.h and
-- VPN/src/common/ipc_protocol.c. As in Protocol, a packed structure is a record of the values in
-- memory; its flexible array `data` is the bytes that follow the header. `global_request_id` is an
-- argument and a result.
pub mod RoundTrip
use Prim.Native.String.{String}
use cloud_service.Base.{
  ℕ, ◌+◌, ◌%◌, ◌^◌, List, [], ◌∷◌, ◌++◌, get_or, ◌==◌, if◌then◌else◌, take, drop,
}
use cloud_service.Wire.{Bytes, htons, htonl, load16, load32, store16, store32}

abbrev pub ipc_max_data_size : ℕ
ipc_max_data_size = 4096

abbrev pub ipc_ping : ℕ
ipc_ping = 0x01

abbrev pub ipc_encrypt : ℕ
ipc_encrypt = 0x02

abbrev pub ipc_decrypt : ℕ
ipc_decrypt = 0x03

abbrev pub ipc_add_key : ℕ
ipc_add_key = 0x04

abbrev pub ipc_remove_key : ℕ
ipc_remove_key = 0x05

abbrev pub ipc_handshake : ℕ
ipc_handshake = 0x06

abbrev pub ipc_shutdown : ℕ
ipc_shutdown = 0xff

-- The cases of a `switch` over the command byte; `other` is `default`.
pub data Command : Type 0 where
  ping encrypt decrypt add_key remove_key handshake shutdown other : Command

unfoldable pub ipc_command : ℕ → Command
ipc_command c =
    if c == ipc_ping
    then ping
    else if c == ipc_encrypt
    then encrypt
    else if c == ipc_decrypt
    then decrypt
    else if c == ipc_add_key
    then add_key
    else if c == ipc_remove_key
    then remove_key
    else if c == ipc_handshake
    then handshake
    else if c == ipc_shutdown
    then shutdown
    else other

-- `sizeof(ipc_request_t)` and `sizeof(ipc_response_t)`, without their flexible arrays
abbrev pub request_size : ℕ
request_size = 11

abbrev pub response_size : ℕ
response_size = 7

pub record IpcRequest : Type 0 where
  pub command : ℕ
  pub request_id : ℕ
  pub vpn_ip : ℕ
  pub data_len : ℕ
  pub payload : Bytes

-- `status` is the byte of an `int8_t`: -1 is 255.
pub record IpcResponse : Type 0 where
  pub request_id : ℕ
  pub status : ℕ
  pub data_len : ℕ
  pub payload : Bytes

abbrev pub status_ok : ℕ
status_ok = 0

abbrev pub status_failed : ℕ
status_failed = 255

unfoldable pub request_bytes : IpcRequest → Bytes
request_bytes r =
    (r.command ∷ store32 r.request_id) ++ (store32 r.vpn_ip ++ (store16 r.data_len ++ r.payload))

-- `(ipc_request_t *)request_buffer`
unfoldable pub read_request : Bytes → IpcRequest
read_request b = record {
  command = get_or b 0 0;
  request_id = load32 b 1;
  vpn_ip = load32 b 5;
  data_len = load16 b 9;
  payload = drop 11 b;
}

unfoldable pub response_bytes : IpcResponse → Bytes
response_bytes r = store32 r.request_id ++ ((r.status ∷ store16 r.data_len) ++ r.payload)

-- `(ipc_response_t *)resp_buffer`
unfoldable pub read_response : Bytes → IpcResponse
read_response b = record {
  request_id = load32 b 0;
  status = get_or b 4 0;
  data_len = load16 b 5;
  payload = drop 7 b;
}

abbrev pub command_name : Command → String
command_name ping = "PING"
command_name encrypt = "ENCRYPT"
command_name decrypt = "DECRYPT"
command_name add_key = "ADD_KEY"
command_name remove_key = "REMOVE_KEY"
command_name handshake = "HANDSHAKE"
command_name shutdown = "SHUTDOWN"
command_name other = "UNKNOWN"

unfoldable pub ipc_command_str : ℕ → String
unfolding ipc_command
ipc_command_str c = command_name (ipc_command c)

-- The first argument is `global_request_id`, and the second part of the result is its new value.
-- A null `data` is the empty list; `data_len` is a `uint16_t`.
unfoldable pub init_ipc_request : ℕ → ℕ → ℕ → Bytes → ℕ → IpcRequest × ℕ
init_ipc_request counter command vpn_ip bytes data_len =
    let next : ℕ = (counter + 1) % 2 ^ 32 in
    (
      record {
        command = command;
        request_id = htonl next;
        vpn_ip = vpn_ip;
        data_len = htons (data_len % 2 ^ 16);
        payload = take (data_len % 2 ^ 16) bytes;
      },
      next,
    )

unfoldable pub init_ipc_response : ℕ → ℕ → Bytes → ℕ → IpcResponse
init_ipc_response request_id status bytes data_len = record {
  request_id = request_id;
  status = status;
  data_len = htons (data_len % 2 ^ 16);
  payload = take (data_len % 2 ^ 16) bytes;
}
