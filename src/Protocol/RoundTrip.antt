-- ===== src/Protocol/RoundTrip.antt =====
-- Writing and reading the packets of the VPN protocol.
use cloud_service.Base.{
  ℕ, ◌+◌, ◌*◌, ◌/◌, ◌%◌, ◌^◌, ◌<◌, ◌≡◌, refl, ap, ◌++◌, arith, length, take-append, drop-append,
  ◌∙◌,
}
use mathlib.Core.List.{append_assoc}
use cloud_service.Wire.{
  Bytes, htons, htonl, htobe64, htons-htons, htonl-htonl, htobe64-htobe64, htons-lt, htonl-lt,
  htobe64-lt,
}
use cloud_service.Protocol.{
  VpnHeader, Timeval, ConnectRequest, ConnectResponse, header_bytes, read_header,
  connect_request_bytes, read_connect_request, connect_response_bytes, read_connect_response,
  get_timestamp_ms, init_vpn_header, vpn_protocol_version,
}

-- The fields of a header fit their types.
pub record HeaderFits (h : VpnHeader) : Type 0 where
  pub type_fits : h.type < 2 ^ 8
  pub version_fits : h.version < 2 ^ 8
  pub length_fits : h.length < 2 ^ 16
  pub sequence_fits : h.sequence < 2 ^ 32
  pub timestamp_fits : h.timestamp < 2 ^ 64

-- A header that is written to a buffer is read back from it, whatever follows.
pub read_header-header_bytes :
    (h : VpnHeader) (rest : Bytes) → HeaderFits h → read_header (header_bytes h ++ rest) ≡ h
unfolding read_header header_bytes
read_header-header_bytes h rest f = ground arith

pub init_vpn_header-HeaderFits :
    (tv : Timeval) (sequence type length : ℕ)
    → HeaderFits (init_vpn_header tv sequence type length).0
unfolding init_vpn_header
init_vpn_header-HeaderFits tv sequence type length = record {
  type_fits = omega arith;
  version_fits = omega arith;
  length_fits = htons-lt (length % 2 ^ 16);
  sequence_fits = htonl-lt ((sequence + 1) % 2 ^ 32);
  timestamp_fits = htobe64-lt (get_timestamp_ms tv) (omega arith);
}

-- The receiver of a packet that `init_vpn_header` began, with a type of 8 and a length of 16 bits,
-- reads, after the byte-order conversions, the packet's type, the protocol version, the length, the
-- sequence number after the last one, and the clock in milliseconds, whatever follows the header.
pub read_header-init_vpn_header :
    (tv : Timeval) (sequence type length : ℕ) (rest : Bytes)
    → type < 2 ^ 8
    → length < 2 ^ 16
    → let h = read_header (header_bytes (init_vpn_header tv sequence type length).0 ++ rest) in
      (h.type ≡ type)
      × (h.version ≡ vpn_protocol_version)
      × (htons h.length ≡ length)
      × (htonl h.sequence ≡ (sequence + 1) % 2 ^ 32)
      × (htobe64 h.timestamp ≡ (tv.tv_sec * 1000 + tv.tv_usec / 1000) % 2 ^ 64)
unfolding init_vpn_header
read_header-init_vpn_header tv sequence type len rest ht hl =
    rw (read_header-header_bytes _ rest (init_vpn_header-HeaderFits tv sequence type len)) (
      omega arith,
      refl,
      ap (λ n. htons (htons n)) (omega arith) ∙ htons-htons len hl,
      htonl-htonl ((sequence + 1) % 2 ^ 32) (omega arith),
      htobe64-htobe64 _ (omega arith),
    )

-- A connection response whose fields fit their types, with a public key of 32 bytes, is read back
-- from its bytes, whatever follows them.
pub read_connect_response_lem :
    (r : ConnectResponse) (rest : Bytes)
    → HeaderFits r.header
    → r.status < 2 ^ 8
    → r.vpn_ip < 2 ^ 32
    → r.session_id < 2 ^ 32
    → length r.server_public_key ≡ 32
    → read_connect_response (connect_response_bytes r ++ rest) ≡ r
unfolding read_connect_response connect_response_bytes
read_connect_response_lem r rest f hs hv hi hk =
    ground (arith, take-append 32 r.server_public_key rest hk)

-- A connection request whose header fits, with a user name and a token of 32 bytes each, is read
-- back from its bytes, whatever follows them.
pub read_connect_request_lem :
    (r : ConnectRequest) (rest : Bytes)
    → HeaderFits r.header
    → length r.username ≡ 32
    → length r.auth_token ≡ 32
    → read_connect_request (connect_request_bytes r ++ rest) ≡ r
unfolding read_connect_request connect_request_bytes
read_connect_request_lem r rest f hu ha = ground (
  arith,
  append_assoc r.username r.auth_token rest,
  take-append 32 r.username (r.auth_token ++ rest) hu,
  drop-append 32 r.username (r.auth_token ++ rest) hu,
  take-append 32 r.auth_token rest ha,
)
