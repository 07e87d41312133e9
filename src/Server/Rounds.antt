-- ===== src/Server/Rounds.antt =====
-- Sessions with the enclave at the end of the link, packets of strangers, and the event loop of
-- vpn_server.c.
use cloud_service.Base.{
  ℕ, ◌+◌, ◌%◌, ◌^◌, ◌<◌, ◌≤◌, ◌≡◌, ◌≢◌, refl, ap, sym, ◌∙◌, Option, none, some, inl, inr, List, [],
  ◌∷◌, length, arith, leb, Bool-cases, subst, ◌⊎◌,
}
use cloud_service.Clients.{SockAddr, ClientEntry, find_client_by_addr, remove_client}
use cloud_service.Clients.Invariant.{IsValid, check_client_timeouts-IsValid}
use cloud_service.Crypto.{Sodium}
use cloud_service.Enclave.{Enclave}
use cloud_service.Enclave.Reference.{unseal}
use cloud_service.EnclaveClient.Calls.{
  next_id, enclave_remove_key_lem, enclave_decrypt_lem, size-unseal,
}
use cloud_service.EnclaveClient.Peer.{enclave_exchange, Ready, link_to}
use cloud_service.EnclaveClient.Replies.{size_of}
use cloud_service.Keys.{remove_key}
use cloud_service.Protocol.{pkt_connect_req, read_header, header_bytes, init_vpn_header, pkt_pong}
use cloud_service.Server.Cases.{on_packet_cases}
use cloud_service.Server.{
  Server, Moment, Output, Loop, Activity, select_failed, timed_out, readable, udp_sent, on_data,
  on_ping, on_disconnect, on_packet, event_loop_round, served, buffer_size,
}
use cloud_service.Server.Safety.{Safely, SmallAnswers, handle_udp_to_tun-IsValid}
use cloud_service.Wire.{Bytes, Run, fault, done, ◌>>=◌}

length_bound :
    (r : Option Bytes) (text : Bytes) (n : ℕ) → size_of r ≤ n → r ≡ some text → length text ≤ n
length_bound r text n h e = subst (λ o. size_of o ≤ n) e h

-- The enclave's decryptions fit the server's buffer.
pub Ready-SmallAnswers :
    {s : Sodium} {public_of : Bytes → Bytes} {nonce buffer : Bytes} {e : Enclave} (id : ℕ)
    → Ready s public_of nonce buffer e
    → SmallAnswers (enclave_exchange s nonce buffer) (link_to e id)
Ready-SmallAnswers {s} {public_of} {nonce} {buffer} {e} id w ip sealed text hi small answer =
    length_bound (unseal s e.manager ip sealed) text buffer_size
      (omega (arith, size-unseal w ip sealed, small))
      (sym (ap (λ r. r.1) (enclave_decrypt_lem w id ip sealed hi (omega (arith, small)))) ∙ answer)

-- With an enclave that waits for requests, a DISCONNECT from the address of a client ends the
-- client's session in the server's table and takes the key of its VPN address out of the enclave's;
-- nothing is sent.
pub on_disconnect_lem :
    {s : Sodium} {public_of : Bytes → Bytes} {nonce buffer : Bytes} {e : Enclave} (m : Moment)
    (v : Server (Run Enclave)) (addr : SockAddr) (id i : ℕ) (client : ClientEntry)
    → Ready s public_of nonce buffer e
    → v.link ≡ link_to e id
    → find_client_by_addr v.table addr ≡ some (i, client)
    → client.vpn_ip < 2 ^ 32
    → on_disconnect (enclave_exchange s nonce buffer) m v addr
      ≡ done (
        record v {
          table = remove_client v.table client.vpn_ip;
          link = link_to (record e { manager = remove_key e.manager client.vpn_ip }) (next_id id);
        },
        [],
      )
unfolding on_disconnect
on_disconnect_lem m v addr id i client w linked known ip =
    rw (known, on_disconnect, linked, enclave_remove_key_lem w id client.vpn_ip ip) refl

-- What a packet from an address without a session may do: nothing but be answered by a PONG.
abbrev pub AtMostPong :
    {P : Type 0} → Moment → Server P → SockAddr → Run (Server P × List Output) → Type 0
AtMostPong m v addr r =
    (r ≡ done (v, []))
    ⊎ (r
        ≡ done (
          record v { sequence = (v.sequence + 1) % 2 ^ 32 },
          udp_sent (header_bytes (init_vpn_header m.clock v.sequence pkt_pong 0).0) addr ∷ [],
        ))

module _ {P : Type 0} (exchange : P → Bytes → Option (P × Bytes)) (m : Moment) where
  on_ping_stranger :
      (v : Server P) (addr : SockAddr)
      → find_client_by_addr v.table addr ≡ none
      → on_ping exchange m v addr
        ≡ done (
          record v { sequence = (v.sequence + 1) % 2 ^ 32 },
          udp_sent (header_bytes (init_vpn_header m.clock v.sequence pkt_pong 0).0) addr ∷ [],
        )
  unfolding on_ping init_vpn_header
  on_ping_stranger v addr stranger = rw (stranger, on_ping) refl

  -- A packet that is no connection request, from an address without a session, changes neither the
  -- table nor the enclave and writes nothing to the TUN interface: at most it is answered by a PONG.
  pub on_packet_stranger :
      (v : Server P) (buffer : Bytes) (n : ℕ) (addr : SockAddr)
      → find_client_by_addr v.table addr ≡ none
      → (read_header buffer).type ≢ pkt_connect_req
      → AtMostPong m v addr (on_packet exchange m v buffer n addr)
  unfolding on_data on_disconnect
  on_packet_stranger v buffer n addr stranger other =
      on_packet_cases exchange m (AtMostPong m v addr) v buffer n addr
        (λ connects. absurd (ground (arith, other)))
        (λ no1. (
          rw (stranger, on_data) (inl refl),
          inr (on_ping_stranger v addr stranger),
          rw (stranger, on_disconnect) (inl refl),
          inl refl,
        ))

-- A round of the loop that leaves the server's table valid.
abbrev pub RoundSafely : {P : Type 0} → Run (Loop P) → Type 0
RoundSafely fault = ⊥
RoundSafely (done l) = IsValid l.server.table

served-Safely :
    {P : Type 0} (exchange : P → Bytes → Option (P × Bytes)) (l : Loop P)
    (r : Run (Server P × List Output))
    → Safely (λ v. IsValid v.table) r
    → RoundSafely (served exchange l r >>= (λ l'. done l'))
served-Safely exchange l fault h = elim h [ ]
served-Safely exchange l (done (v, outputs)) h = h

abbrev pub NoTunPacket : Activity → Type 0
NoTunPacket select_failed = Unit
NoTunPacket (timed_out now alive) = Unit
NoTunPacket (readable udp tun) = tun ≡ none

-- A round of the event loop in which no packet comes from the TUN interface does not fault and leaves
-- the table valid, whatever `select` says and whatever arrives on the socket, as long as the peer's
-- decryptions fit the server's buffer.
pub event_loop_round-IsValid :
    {P : Type 0} (exchange : P → Bytes → Option (P × Bytes)) (m : Moment) (stale : Bytes)
    (l : Loop P) (a : Activity)
    → IsValid l.server.table
    → SmallAnswers exchange l.server.link
    → NoTunPacket a
    → RoundSafely (event_loop_round exchange m stale l a)
unfolding event_loop_round
event_loop_round-IsValid exchange m stale l select_failed w small h = w
event_loop_round-IsValid exchange m stale l (timed_out now alive) w small h =
    elim (Bool-cases (leb (l.last_timeout_check + 30) now)) [
      | inl due ↦ rw due (check_client_timeouts-IsValid now w)
      | inr early ↦ rw early w
    ]
event_loop_round-IsValid exchange m stale l (readable none tun) w small h = rw h w
event_loop_round-IsValid exchange m stale l (readable (some received) tun) w small h = rw h (
    served-Safely exchange l _
      (handle_udp_to_tun-IsValid exchange m l.server stale received w small))
