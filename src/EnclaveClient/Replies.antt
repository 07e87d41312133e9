-- ===== src/EnclaveClient/Replies.antt =====
-- Reading one response that has arrived whole.
use cloud_service.Base.{
  ℕ, ◌+◌, ◌%◌, ◌^◌, ◌<◌, ◌≤◌, ◌≡◌, refl, ◌∙◌, true, false, Option, none, some, [], ◌==◌, ltb,
  length, arith, if◌then◌else◌, take, take_all, drop_all, le→ltb, length-take,
}
use cloud_service.EnclaveClient.{Link, receive_whole, receive_response}
use cloud_service.Enclave.Reference.{reply_to}
use cloud_service.Ipc.{IpcResponse, response_size, response_bytes, init_ipc_response}
use cloud_service.Ipc.RoundTrip.{
  ResponseFits, length-response_bytes, read_response-response_bytes, take-response_bytes,
}
use cloud_service.Wire.{Bytes, htons, htons-htons, htons-lt}

-- What the caller is told of the enclave's answer: the response, or a failure for any other status.
abbrev pub told : ℕ → Option Bytes → Option IpcResponse
told id none = none
told id (some bytes) = some (reply_to id (some bytes))

abbrev pub size_of : Option Bytes → ℕ
size_of none = 0
size_of (some bytes) = length bytes

reply_to-ResponseFits :
    (id : ℕ) (answer : Option Bytes)
    → id < 2 ^ 32
    → size_of answer < 2 ^ 16
    → ResponseFits (reply_to id answer) × (length (reply_to id answer).payload ≡ size_of answer)
unfolding init_ipc_response
reply_to-ResponseFits id none h small = (
  record {
    request_id_fits = h;
    status_fits = omega arith;
    data_len_fits = htons-lt 0;
    counted = unfold htons in refl;
  },
  refl,
)
reply_to-ResponseFits id (some bytes) h small =
    let n : length bytes % 2 ^ 16 ≡ length bytes = omega arith in
    let all : take (length bytes) bytes ≡ bytes = take_all (length bytes) bytes (omega arith) in
    rw (n, all)
      (
        record {
          request_id_fits = h;
          status_fits = omega arith;
          data_len_fits = htons-lt (length bytes);
          counted = htons-htons (length bytes) small;
        },
        refl,
      )

module _ {P : Type 0} where
  -- A response that stands alone on the link and fits the caller's buffer is read whole.
  receive_response_whole :
      (l : Link P) (r : IpcResponse) (resp_max_len : ℕ)
      → ResponseFits r
      → response_size + length r.payload ≤ resp_max_len
      → receive_response (record l { unread = response_bytes r }) resp_max_len
        ≡ (record l { unread = [] }, if r.status == 0 then some r else none)
  unfolding receive_response receive_whole
  receive_response_whole l r resp_max_len f room =
      let bytes = response_bytes r in
      let total : length bytes ≡ response_size + htons r.data_len =
        omega (arith, length-response_bytes r, f.counted) in
      let headed : ltb (length (take 7 bytes)) 7 ≡ false =
        le→ltb _ _ (omega (arith, length-take 7 bytes, total)) in
      let fits : ltb resp_max_len (response_size + htons r.data_len) ≡ false =
        le→ltb _ _ (omega (arith, f.counted)) in
      let exact : (length bytes == response_size + htons r.data_len) ≡ true =
        ground (arith, total) in
      rw
        (
          headed,
          take-response_bytes r f,
          fits,
          take_all (response_size + htons r.data_len) bytes (omega (arith, total)),
          drop_all (response_size + htons r.data_len) bytes (omega (arith, total)),
          exact,
          read_response-response_bytes r f,
        )
        (ground arith)

  pub receive_reply :
      (l : Link P) (id : ℕ) (answer : Option Bytes) (resp_max_len : ℕ)
      → id < 2 ^ 32
      → size_of answer < 2 ^ 16
      → response_size + size_of answer ≤ resp_max_len
      → receive_response (record l { unread = response_bytes (reply_to id answer) }) resp_max_len
        ≡ (record l { unread = [] }, told id answer)
  receive_reply l id none resp_max_len h small room =
      let (f, n) = reply_to-ResponseFits id none h small in
      receive_response_whole l (reply_to id none) resp_max_len f (omega (arith, n))
      ∙ unfold init_ipc_response in refl
  receive_reply l id (some bytes) resp_max_len h small room =
      let (f, n) = reply_to-ResponseFits id (some bytes) h small in
      receive_response_whole l (reply_to id (some bytes)) resp_max_len f (omega (arith, n))
      ∙ unfold init_ipc_response in refl
