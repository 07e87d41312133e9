-- ===== src/Protocol.antt =====
-- The VPN packet format: VPN/include/protocol.h and VPN/src/common/protocol.c. A packed structure
-- is a record of the values its fields hold in memory (a field in network byte order holds the
-- swapped number); `header_bytes` and `read_header` are the two sides of a cast between the
-- structure and a byte buffer. `global_sequence` is an argument and a result.
pub mod RoundTrip
use Prim.Native.String.{String}
use cloud_service.Base.{
  ℕ, ◌+◌, ◌-◌, ◌*◌, ◌/◌, ◌%◌, ◌^◌, ◌<◌, ◌≡◌, refl, List, [], ◌∷◌, ◌++◌, arith, get_or, ◌==◌,
  if◌then◌else◌, take, drop,
}
use cloud_service.Wire.{
  Bytes, htons, htonl, htobe64, htons-htons, htonl-htonl, load16, load32, load64, store16, store32,
  store64,
}

abbrev pub pkt_connect_req : ℕ
pkt_connect_req = 0x01

abbrev pub pkt_connect_resp : ℕ
pkt_connect_resp = 0x02

abbrev pub pkt_data : ℕ
pkt_data = 0x03

abbrev pub pkt_ping : ℕ
pkt_ping = 0x04

abbrev pub pkt_pong : ℕ
pkt_pong = 0x05

abbrev pub pkt_disconnect : ℕ
pkt_disconnect = 0x06

abbrev pub vpn_protocol_version : ℕ
vpn_protocol_version = 0x01

-- `sizeof(vpn_header_t)`
abbrev pub header_size : ℕ
header_size = 16

pub record VpnHeader : Type 0 where
  pub type : ℕ
  pub version : ℕ
  pub length : ℕ
  pub sequence : ℕ
  pub timestamp : ℕ

unfoldable pub header_bytes : VpnHeader → Bytes
header_bytes h =
    (h.type ∷ h.version ∷ store16 h.length) ++ (store32 h.sequence ++ store64 h.timestamp)

-- `(vpn_header_t *)buffer`
unfoldable pub read_header : Bytes → VpnHeader
read_header b = record {
  type = get_or b 0 0;
  version = get_or b 1 0;
  length = load16 b 2;
  sequence = load32 b 4;
  timestamp = load64 b 8;
}

unfoldable pub packet_type_str : ℕ → String
packet_type_str t =
    if t == pkt_connect_req
    then "CONNECT_REQ"
    else if t == pkt_connect_resp
    then "CONNECT_RESP"
    else if t == pkt_data
    then "DATA"
    else if t == pkt_ping
    then "PING"
    else if t == pkt_pong
    then "PONG"
    else if t == pkt_disconnect
    then "DISCONNECT"
    else "UNKNOWN"

-- What `gettimeofday` gives.
pub record Timeval : Type 0 where
  pub tv_sec : ℕ
  pub tv_usec : ℕ

-- `uint64_t` arithmetic
unfoldable pub get_timestamp_ms : Timeval → ℕ
get_timestamp_ms tv = (tv.tv_sec * 1000 + tv.tv_usec / 1000) % 2 ^ 64

-- The parameters are `uint8_t` and `uint16_t`: what the caller passes is cut to that. The second
-- part of the result is the new `global_sequence`.
unfoldable pub init_vpn_header : Timeval → ℕ → ℕ → ℕ → VpnHeader × ℕ
unfolding get_timestamp_ms
init_vpn_header tv sequence type length =
    let next : ℕ = (sequence + 1) % 2 ^ 32 in
    (
      record {
        type = type % 2 ^ 8;
        version = vpn_protocol_version;
        length = htons (length % 2 ^ 16);
        sequence = htonl next;
        timestamp = htobe64 (get_timestamp_ms tv);
      },
      next,
    )

-- `connect_request_t`
pub record ConnectRequest : Type 0 where
  pub header : VpnHeader
  pub username : Bytes
  pub auth_token : Bytes

-- `sizeof(connect_request_t)`
abbrev pub connect_request_size : ℕ
connect_request_size = 80

unfoldable pub connect_request_bytes : ConnectRequest → Bytes
unfolding header_bytes
connect_request_bytes r = header_bytes r.header ++ (r.username ++ r.auth_token)

-- `(connect_request_t *)buffer`
unfoldable pub read_connect_request : Bytes → ConnectRequest
unfolding read_header
read_connect_request b = record {
  header = read_header b;
  username = take 32 (drop 16 b);
  auth_token = take 32 (drop 48 b);
}

-- `connect_response_t`
pub record ConnectResponse : Type 0 where
  pub header : VpnHeader
  pub status : ℕ
  pub vpn_ip : ℕ
  pub session_id : ℕ
  pub server_public_key : Bytes

-- `sizeof(connect_response_t)`
abbrev pub connect_response_size : ℕ
connect_response_size = 57

unfoldable pub connect_response_bytes : ConnectResponse → Bytes
unfolding header_bytes
connect_response_bytes r =
    header_bytes r.header
    ++ ((r.status ∷ store32 r.vpn_ip) ++ (store32 r.session_id ++ r.server_public_key))

-- `(connect_response_t *)buffer`
unfoldable pub read_connect_response : Bytes → ConnectResponse
unfolding read_header
read_connect_response b = record {
  header = read_header b;
  status = get_or b 16 0;
  vpn_ip = load32 b 17;
  session_id = load32 b 21;
  server_public_key = take 32 (drop 25 b);
}
