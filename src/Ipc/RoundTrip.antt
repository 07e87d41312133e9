-- ===== src/Ipc/RoundTrip.antt =====
-- Writing and reading the packets of the IPC socket.
use cloud_service.Base.{
  ℕ, ◌+◌, ◌%◌, ◌^◌, ◌<◌, ◌≡◌, refl, ap, sym, arith, length, take_all, ◌∙◌, take,
}
use cloud_service.Wire.{Bytes, htons, htonl, htons-htons, htons-lt, htonl-lt}
use cloud_service.Ipc.{
  IpcRequest, IpcResponse, request_bytes, read_request, response_bytes, read_response,
  init_ipc_request, request_size, response_size,
}

-- The fields of a request fit their types, and `data_len` is the length of its data.
pub record RequestFits (r : IpcRequest) : Type 0 where
  pub command_fits : r.command < 2 ^ 8
  pub request_id_fits : r.request_id < 2 ^ 32
  pub vpn_ip_fits : r.vpn_ip < 2 ^ 32
  pub data_len_fits : r.data_len < 2 ^ 16
  pub counted : htons r.data_len ≡ length r.payload

pub record ResponseFits (r : IpcResponse) : Type 0 where
  pub request_id_fits : r.request_id < 2 ^ 32
  pub status_fits : r.status < 2 ^ 8
  pub data_len_fits : r.data_len < 2 ^ 16
  pub counted : htons r.data_len ≡ length r.payload

pub length-request_bytes :
    (r : IpcRequest) → length (request_bytes r) ≡ request_size + length r.payload
unfolding request_bytes
length-request_bytes r = omega arith

pub length-response_bytes :
    (r : IpcResponse) → length (response_bytes r) ≡ response_size + length r.payload
unfolding response_bytes
length-response_bytes r = omega arith

-- A request whose fields fit their types and whose length field counts its data is read back from
-- its bytes.
pub read_request-request_bytes :
    (r : IpcRequest) → RequestFits r → read_request (request_bytes r) ≡ r
unfolding read_request request_bytes
read_request-request_bytes r f = ground arith

-- The header is there as soon as 11 bytes are.
pub take-request_bytes :
    (r : IpcRequest)
    → RequestFits r
    → (read_request (take 11 (request_bytes r))).data_len ≡ r.data_len
unfolding read_request request_bytes
take-request_bytes r f = ground arith

-- A response whose fields fit their types and whose length field counts its data is read back from
-- its bytes.
pub read_response-response_bytes :
    (r : IpcResponse) → ResponseFits r → read_response (response_bytes r) ≡ r
unfolding read_response response_bytes
read_response-response_bytes r f = ground arith

pub take-response_bytes :
    (r : IpcResponse)
    → ResponseFits r
    → (read_response (take 7 (response_bytes r))).data_len ≡ r.data_len
unfolding read_response response_bytes
take-response_bytes r f = ground arith

-- Every request that `init_ipc_request` makes of `data_len` bytes fits.
pub init_ipc_request-RequestFits :
    (counter command vpn_ip : ℕ) (bytes : Bytes)
    → command < 2 ^ 8
    → vpn_ip < 2 ^ 32
    → length bytes < 2 ^ 16
    → RequestFits (init_ipc_request counter command vpn_ip bytes (length bytes)).0
unfolding init_ipc_request
init_ipc_request-RequestFits counter command vpn_ip bytes hc hv hl =
    let n : length bytes % 2 ^ 16 ≡ length bytes = omega arith in
    rw n (record {
      command_fits = hc;
      request_id_fits = htonl-lt ((counter + 1) % 2 ^ 32);
      vpn_ip_fits = hv;
      data_len_fits = htons-lt (length bytes);
      counted =
          htons-htons (length bytes) hl
          ∙ sym (ap length (take_all (length bytes) bytes (omega arith)));
    })

pub init_ipc_request_lem :
    (counter command vpn_ip : ℕ) (bytes : Bytes)
    → length bytes < 2 ^ 16
    → init_ipc_request counter command vpn_ip bytes (length bytes) ≡ (
      record {
        command = command;
        request_id = htonl ((counter + 1) % 2 ^ 32);
        vpn_ip = vpn_ip;
        data_len = htons (length bytes);
        payload = bytes;
      },
      (counter + 1) % 2 ^ 32,
    )
unfolding init_ipc_request
init_ipc_request_lem counter command vpn_ip bytes h =
    let n : length bytes % 2 ^ 16 ≡ length bytes = omega arith in
    rw (n, take_all (length bytes) bytes (omega arith)) refl
