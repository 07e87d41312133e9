-- ===== src/Enclave/Receive.antt =====
-- Receiving a request from the stream.
use cloud_service.Base.{
  ◌+◌, ◌<◌, ◌⊎◌, ◌≤◌, ◌≡◌, refl, ap, ◌∙◌, true, false, none, some, ◌++◌, ◌==◌, ltb, length, arith,
  take, length-take, take-append, drop-append, le→ltb, lt→ltb,
}
use cloud_service.Enclave.{Stream, receive_full, receive_request, request_capacity}
use cloud_service.Ipc.{IpcRequest, ipc_max_data_size, request_size, request_bytes, read_request}
use cloud_service.Ipc.RoundTrip.{RequestFits, length-request_bytes, read_request-request_bytes}
use cloud_service.Wire.{Bytes, fault, done, htons}

-- A stream on which a whole request has arrived, and perhaps more.
abbrev pub with_request : IpcRequest → Bytes → Stream → Stream
with_request r rest k = record k { incoming = request_bytes r ++ rest; broken = false }

-- The header read ahead gives the length.
peek-data_len :
    (r : IpcRequest) (rest : Bytes)
    → RequestFits r
    → (read_request (take 11 (request_bytes r ++ rest))).data_len ≡ r.data_len
unfolding read_request request_bytes
peek-data_len r rest f = ground arith

length-peek : (r : IpcRequest) (rest : Bytes) → length (take 11 (request_bytes r ++ rest)) ≡ 11
unfolding request_bytes
length-peek r rest = omega arith

whole :
    (r : IpcRequest) → RequestFits r → length (request_bytes r) ≡ request_size + htons r.data_len
whole r f = omega (arith, length-request_bytes r, f.counted)

receive_request-full :
    (r : IpcRequest) (rest : Bytes) (k : Stream)
    → RequestFits r
    → receive_request (with_request r rest k)
      ≡ receive_full (htons r.data_len) (with_request r rest k)
unfolding receive_request
receive_request-full r rest k f =
    rw (length-peek r rest)
      (ap (λ n. receive_full (htons n) (with_request r rest k)) (peek-data_len r rest f))

-- A request whose fields fit, with at most 4096 bytes of data, is received as it was sent, and what
-- follows it on the stream stays there.
pub receive_request_lem :
    (r : IpcRequest) (rest : Bytes) (k : Stream)
    → RequestFits r
    → length r.payload ≤ ipc_max_data_size
    → receive_request (with_request r rest k)
      ≡ done (some r, record k { incoming = rest; broken = false })
unfolding receive_full
receive_request_lem r rest k f small =
    let size = whole r f in
    let fits : ltb request_capacity (length (request_bytes r)) ≡ false =
      le→ltb _ _ (omega (arith, length-request_bytes r)) in
    let exact : (length (request_bytes r) == request_size + htons r.data_len) ≡ true =
      ground (arith, size) in
    receive_request-full r rest k f
    ∙ rw
        (
          take-append (request_size + htons r.data_len) (request_bytes r) rest size,
          drop-append (request_size + htons r.data_len) (request_bytes r) rest size,
          fits,
          exact,
          read_request-request_bytes r f,
        )
        refl

-- A request whose fields fit and that announces and carries more than 4096 bytes is copied past the
-- end of `request_buffer`: the handler does not compare the length with the buffer's.
pub receive_request_overflow :
    (r : IpcRequest) (rest : Bytes) (k : Stream)
    → RequestFits r
    → ipc_max_data_size < length r.payload
    → receive_request (with_request r rest k) ≡ fault
unfolding receive_full
receive_request_overflow r rest k f large =
    let size = whole r f in
    let over : ltb request_capacity (length (request_bytes r)) ≡ true =
      lt→ltb _ _ (omega (arith, length-request_bytes r)) in
    receive_request-full r rest k f
    ∙ rw (take-append (request_size + htons r.data_len) (request_bytes r) rest size, over) refl

-- An end of the stream, a failed `recv` or a header that has not arrived whole are passed over, and
-- nothing is taken from the stream.
pub receive_request_nothing :
    (k : Stream)
    → (k.broken ≡ true) ⊎ (length k.incoming < request_size)
    → receive_request k ≡ done (none, k)
unfolding receive_request
receive_request_nothing k h = ground (arith, length-take request_size k.incoming)
