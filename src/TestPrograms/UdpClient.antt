-- ===== src/TestPrograms/UdpClient.antt =====
-- `main` of VPN/src/client/udp_test_client.c: a connection request, a PING and a DATA packet to a
-- server. `inet_pton` is a parameter, whether the text is an address; what `recvfrom` gives, the
-- clock and what the stack held before are arguments.
pub mod Packets
pub mod Server
pub mod Connects
use cloud_service.Base.{
  ℕ, ◌+◌, ◌-◌, Bool, true, false, Option, none, some, List, [], ◌∷◌, ◌++◌, ◌==◌, length,
  if◌then◌else◌, take, drop, replicate,
}
use cloud_service.Protocol.{
  Timeval, ConnectRequest, pkt_connect_req, pkt_ping, pkt_data, header_size, connect_request_size,
  init_vpn_header, header_bytes, connect_request_bytes, read_connect_response,
}
use cloud_service.System.{System, Outcomes, close, attempt, new_descriptor}
use cloud_service.Text.{codes, strncpy}
use cloud_service.Wire.{Bytes, htonl}

-- What the program meets: the clock at each packet, `conn_req.username` and `recv_buffer` before they
-- are written, and what arrives within five seconds, if something does.
pub record Inputs : Type 0 where
  pub connect_clock : Timeval
  pub ping_clock : Timeval
  pub data_clock : Timeval
  pub stale_name : Bytes
  pub stale : Bytes
  pub received : Option Bytes

-- what is printed of the answer to the connection request
pub data Verdict : Type 0 where
  no_response : Verdict
  success : (vpn_ip session_id : ℕ) → Verdict
  failure : (status : ℕ) → Verdict

unfoldable pub read_verdict : Bytes → Option Bytes → Verdict
read_verdict stale none = no_response
read_verdict stale (some datagram) =
    let got = take 2048 datagram in
    if length got == 0
    then no_response
    else (let resp = read_connect_response (got ++ drop (length got) stale) in
        if resp.status == 0
        then success resp.vpn_ip (htonl resp.session_id)
        else failure resp.status)

-- `fake_icmp`: an IPv4 header from 10.8.0.5 to 192.168.100.10
abbrev pub fake_icmp : Bytes
fake_icmp =
    0x45 ∷ 0x00 ∷ 0x00 ∷ 0x54 ∷ 0x12 ∷ 0x34 ∷ 0x40 ∷ 0x00 ∷ 0x40 ∷ 0x01 ∷ 0x00 ∷ 0x00 ∷ 0x0a ∷ 0x08
    ∷ 0x00 ∷ 0x05 ∷ 0xc0 ∷ 0xa8 ∷ 0x64 ∷ 0x0a ∷ []

-- `global_sequence` is 0 when the program starts, and each header moves it by one.
unfoldable pub test_request : Inputs → ConnectRequest
test_request i = record {
  header =
      (init_vpn_header i.connect_clock 0 pkt_connect_req (connect_request_size - header_size)).0;
  username = strncpy i.stale_name (codes "test_user") 31;
  auth_token = replicate 32 0xab;
}

unfoldable pub ping_packet : Inputs → Bytes
ping_packet i = header_bytes (init_vpn_header i.ping_clock 1 pkt_ping 0).0

unfoldable pub data_packet : Inputs → Bytes
data_packet i =
    header_bytes (init_vpn_header i.data_clock 2 pkt_data (length fake_icmp)).0 ++ fake_icmp

-- the system, the datagrams that were sent, what was printed of the answer, and the exit status
pub record Outcome : Type 0 where
  pub system : System
  pub sent : List Bytes
  pub verdict : Option Verdict
  pub status : ℕ

abbrev pub gives_up : System → List Bytes → Option Verdict → Outcome
gives_up s sent verdict = record { system = s; sent = sent; verdict = verdict; status = 1 }

module _ (o : Outcomes) (valid : Bytes → Bool) (i : Inputs) where
  abbrev pub three_packets : List Bytes
  three_packets = connect_request_bytes (test_request i) ∷ ping_packet i ∷ data_packet i ∷ []

  abbrev pub verdict : Verdict
  verdict = read_verdict i.stale i.received

  -- the result of each `sendto`
  abbrev pub after_data : ℕ → System × Bool → Outcome
  after_data fd (s, false) = gives_up (close s fd) (take 2 three_packets) (some verdict)
  after_data fd (s, true) = record {
    system = close s fd;
    sent = three_packets;
    verdict = some verdict;
    status = 0;
  }

  abbrev pub after_ping : ℕ → System × Bool → Outcome
  after_ping fd (s, false) = gives_up (close s fd) (take 1 three_packets) (some verdict)
  after_ping fd (s, true) = after_data fd (attempt o s)

  -- `setsockopt`, `recvfrom` and the PING follow.
  abbrev pub after_request : ℕ → System × Bool → Outcome
  after_request fd (s, false) = gives_up (close s fd) [] none
  after_request fd (s, true) = after_ping fd (attempt o (attempt o s).0)

  abbrev pub with_socket : Bytes → System × Option ℕ → Outcome
  with_socket server_ip (s, none) = gives_up s [] none
  with_socket server_ip (s, some fd) =
      if valid server_ip then after_request fd (attempt o s) else gives_up (close s fd) [] none

  -- The list is what follows the program's name on its command line.
  unfoldable pub udp_test_client : System → List Bytes → Outcome
  udp_test_client s (server_ip ∷ []) = with_socket server_ip (new_descriptor o s)
  udp_test_client s _ = gives_up s [] none
