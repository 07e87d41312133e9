-- ===== src/Tests/Formats.antt =====
-- The formats' theorems at concrete packets.
use cloud_service.Base.{◌+◌, ◌%◌, ◌*◌, ◌/◌, ◌^◌, ◌≡◌, refl, arith, [], ◌∷◌, ◌++◌, replicate}
use cloud_service.Ipc.{IpcRequest, IpcResponse}
use cloud_service.Ipc.RoundTrip.{RequestFits, ResponseFits}
use cloud_service.Protocol.{
  ConnectRequest, ConnectResponse, header_bytes, read_header, init_vpn_header, vpn_protocol_version,
  pkt_data, pkt_connect_req, pkt_connect_resp,
}
use cloud_service.Protocol.RoundTrip.{read_header-init_vpn_header}
use cloud_service.Tests.Toy.{moment, client_key, server_key}
use cloud_service.Wire.{htons, htonl, htobe64}

abbrev ping_request : IpcRequest
ping_request = record {
  command = 1;
  request_id = 5;
  vpn_ip = 0x0200080a;
  data_len = 0x0200;
  payload = 8 ∷ 9 ∷ [];
}

ping_request-RequestFits : RequestFits ping_request
unfolding htons
ping_request-RequestFits = record {
  command_fits = omega arith;
  request_id_fits = omega arith;
  vpn_ip_fits = omega arith;
  data_len_fits = omega arith;
  counted = refl;
}

abbrev a_response : IpcResponse
a_response = record { request_id = 5; status = 0; data_len = 0x0300; payload = 8 ∷ 9 ∷ 10 ∷ [] }

a_response-ResponseFits : ResponseFits a_response
unfolding htons
a_response-ResponseFits = record {
  request_id_fits = omega arith;
  status_fits = omega arith;
  data_len_fits = omega arith;
  counted = refl;
}

read_header-init_vpn_header_example :
    let h =
      read_header (header_bytes (init_vpn_header moment.clock 41 pkt_data 300).0 ++ (1 ∷ 2 ∷ [])) in
    (h.type ≡ pkt_data)
    × (h.version ≡ vpn_protocol_version)
    × (htons h.length ≡ 300)
    × (htonl h.sequence ≡ (41 + 1) % 2 ^ 32)
    × (htobe64 h.timestamp ≡ (100 * 1000 + 0 / 1000) % 2 ^ 64)
read_header-init_vpn_header_example =
    read_header-init_vpn_header moment.clock 41 pkt_data 300 (1 ∷ 2 ∷ []) (omega arith)
      (omega arith)

abbrev a_connect_response : ConnectResponse
a_connect_response = record {
  header = (init_vpn_header moment.clock 0 pkt_connect_resp 41).0;
  status = 0;
  vpn_ip = 0x0200080a;
  session_id = 77;
  server_public_key = server_key;
}

abbrev a_connect_request : ConnectRequest
a_connect_request = record {
  header = (init_vpn_header moment.clock 0 pkt_connect_req 64).0;
  username = replicate 32 97;
  auth_token = client_key;
}
