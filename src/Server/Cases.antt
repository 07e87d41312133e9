-- ===== src/Server/Cases.antt =====
-- The branches of the `switch` of vpn_server.c, as a rule for proving something of its result.
use cloud_service.Base.{
  ℕ, ◌≡◌, true, false, inl, inr, List, [], Bool-cases, ◌==◌, take, drop, Option,
}
use cloud_service.Clients.{SockAddr}
use cloud_service.Protocol.{
  pkt_connect_req, pkt_data, pkt_ping, pkt_disconnect, read_header, header_size,
}
use cloud_service.Server.{
  Server, Moment, Output, on_connect_req, on_data, on_ping, on_disconnect, on_packet,
}
use cloud_service.Wire.{Bytes, Run, done}

module _ {P : Type 0} (exchange : P → Bytes → Option (P × Bytes)) (m : Moment) where
  pub on_packet_cases {ℓ} :
      (Q : Run (Server P × List Output) → Type ℓ) (v : Server P) (buffer : Bytes) (n : ℕ)
      (addr : SockAddr)
      → (((read_header buffer).type == pkt_connect_req) ≡ true
          → Q (on_connect_req exchange m v buffer addr))
      → (((read_header buffer).type == pkt_connect_req) ≡ false
          → Q (on_data exchange m v (drop header_size (take n buffer)) addr)
            × Q (on_ping exchange m v addr)
            × Q (on_disconnect exchange m v addr)
            × Q (done (v, [])))
      → Q (on_packet exchange m v buffer n addr)
  unfolding on_packet
  on_packet_cases Q v buffer n addr connects others =
      elim (Bool-cases ((read_header buffer).type == pkt_connect_req)) [
        | inl yes1 ↦ rw yes1 (connects yes1)
        | inr no1 ↦
            let (h_data, h_ping, h_disconnect, h_other) = others no1 in
            rw no1 (elim (Bool-cases ((read_header buffer).type == pkt_data)) [
              | inl yes2 ↦ rw yes2 h_data
              | inr no2 ↦ rw no2 (elim (Bool-cases ((read_header buffer).type == pkt_ping)) [
                | inl yes3 ↦ rw yes3 h_ping
                | inr no3 ↦
                    rw no3 (elim (Bool-cases ((read_header buffer).type == pkt_disconnect)) [
                      | inl yes4 ↦ rw yes4 h_disconnect
                      | inr no4 ↦ rw no4 h_other
                    ])
              ])
            ])
      ]
