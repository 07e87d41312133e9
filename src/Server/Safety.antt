-- ===== src/Server/Safety.antt =====
-- Null pointers, buffers and the table's invariant, under whatever arrives on the socket.
use cloud_service.Base.{
  ℕ, ◌^◌, ◌<◌, ◌≤◌, ◌≡◌, refl, sym, Option, none, some, inl, inr, List, ◌++◌, length, arith, take,
  drop, le→ltb, ltb, leb, Bool-cases, Option-cases, length-take, length-drop, subst,
}
use cloud_service.Clients.{
  SockAddr, ClientEntry, ClientTable, max_clients, find_client_by_addr, update_client_activity,
  has_addr,
}
use cloud_service.Clients.Invariant.{
  IsValid, update-IsValid, add_client-IsValid, remove_client-IsValid,
}
use cloud_service.Clients.Refine.{add_client_full}
use cloud_service.EnclaveClient.{Link, enclave_decrypt}
use cloud_service.Protocol.{header_size}
use cloud_service.Server.Cases.{on_packet_cases}
use cloud_service.Server.{
  Server, Moment, Output, on_connect_req, on_data, on_ping, on_disconnect, on_packet,
  handle_udp_to_tun, write_plaintext, buffer_size,
}
use cloud_service.Slots.{find_slot, find_slot-get_elem?}
use cloud_service.Server.Sessions.{on_connect_req_lem, answer_connect, pool_ip}
use cloud_service.Wire.{Bytes, Run, fault, done}

-- The result is no fault, and its state satisfies `P`.
abbrev pub Safely : {P : Type 0} → (Server P → Type 0) → Run (Server P × List Output) → Type 0
Safely Q fault = ⊥
Safely Q (done (v, outputs)) = Q v

-- What the peer decrypts for the server is no longer than the server's buffer.
abbrev pub SmallAnswers : {P : Type 0} → (P → Bytes → Option (P × Bytes)) → Link P → Type 0
SmallAnswers exchange l =
    (ip : ℕ) (sealed text : Bytes)
    → ip < 2 ^ 32
    → length sealed ≤ buffer_size
    → (enclave_decrypt exchange l ip sealed).1 ≡ some text
    → length text ≤ buffer_size

length-take_le : (n : ℕ) (b : Bytes) → length (take n b) ≤ n
length-take_le n b = omega (arith, length-take n b)

module _ {P : Type 0} (exchange : P → Bytes → Option (P × Bytes)) (m : Moment) where
  write_plaintext-Safely :
      (Q : Server P → Type 0) (v : Server P) (text : Option Bytes)
      → Q v
      → ((bytes : Bytes) → text ≡ some bytes → length bytes ≤ buffer_size)
      → Safely Q (write_plaintext exchange m v text)
  write_plaintext-Safely Q v none q h = q
  write_plaintext-Safely Q v (some bytes) q h =
      rw (le→ltb buffer_size (length bytes) (h bytes refl)) q

  on_data-Safely :
      (v : Server P) (sealed : Bytes) (addr : SockAddr)
      → IsValid v.table
      → SmallAnswers exchange v.link
      → length sealed ≤ buffer_size
      → Safely (λ v'. IsValid v'.table) (on_data exchange m v sealed addr)
  unfolding on_data update_client_activity find_client_by_addr
  on_data-Safely v sealed addr w small n =
      elim (Option-cases (find_slot (has_addr addr) v.table.clients)) [
        | inl stranger ↦ rw (stranger, on_data) w
        | inr ((i, client), known) ↦
            rw (known, on_data)
              (write_plaintext-Safely (λ v'. IsValid v'.table) _ _
                (update-IsValid i client m.now w
                  (find_slot-get_elem? (has_addr addr) v.table.clients i client known).0)
                (λ text. small client.vpn_ip sealed text (pool_ip addr w known).0 n))
      ]

  on_ping-Safely :
      (v : Server P) (addr : SockAddr)
      → IsValid v.table
      → Safely (λ v'. IsValid v'.table) (on_ping exchange m v addr)
  unfolding on_ping update_client_activity find_client_by_addr
  on_ping-Safely v addr w = elim (Option-cases (find_slot (has_addr addr) v.table.clients)) [
    | inl stranger ↦ rw (stranger, on_ping) w
    | inr ((i, client), known) ↦
        rw (known, on_ping)
          (update-IsValid i client m.now w
            (find_slot-get_elem? (has_addr addr) v.table.clients i client known).0)
  ]

  on_disconnect-Safely :
      (v : Server P) (addr : SockAddr)
      → IsValid v.table
      → Safely (λ v'. IsValid v'.table) (on_disconnect exchange m v addr)
  unfolding on_disconnect
  on_disconnect-Safely v addr w = elim (Option-cases (find_client_by_addr v.table addr)) [
    | inl stranger ↦ rw (stranger, on_disconnect) w
    | inr ((i, client), known) ↦ rw (known, on_disconnect) (remove_client-IsValid client.vpn_ip w)
  ]

  answer_connect-Safely :
      (v : Server P) (table : ClientTable) (vpn_ip : ℕ) (client : ℕ × ClientEntry)
      (r : Link P × Option (Bytes × Bytes)) (addr : SockAddr)
      → IsValid table
      → Safely (λ v'. IsValid v'.table) (answer_connect exchange m v (table, vpn_ip) client r addr)
  answer_connect-Safely v table vpn_ip (i, client) (link, none) addr w =
      remove_client-IsValid vpn_ip w
  answer_connect-Safely v table vpn_ip (i, client) (link, some (server_key, session_key)) addr w = w

  on_connect_req-Safely :
      (v : Server P) (buffer : Bytes) (addr : SockAddr)
      → IsValid v.table
      → Safely (λ v'. IsValid v'.table) (on_connect_req exchange m v buffer addr)
  unfolding on_connect_req
  on_connect_req-Safely v buffer addr w = elim (Bool-cases (leb max_clients v.table.count)) [
    | inl full ↦ rw (add_client_full v.table addr m.now m.random (ground (arith, full))) w
    | inr room ↦
        let (i, client, found, ip, some_ip, result) =
          on_connect_req_lem exchange m v buffer addr w (ground (arith, room)) in
        subst (Safely (λ v'. IsValid v'.table)) (sym result) (
          answer_connect-Safely v _ _ (i, client) _ addr (add_client-IsValid addr m.now m.random w))
  ]

  on_packet-Safely :
      (v : Server P) (buffer : Bytes) (n : ℕ) (addr : SockAddr)
      → IsValid v.table
      → SmallAnswers exchange v.link
      → n ≤ buffer_size
      → Safely (λ v'. IsValid v'.table) (on_packet exchange m v buffer n addr)
  on_packet-Safely v buffer n addr w small h =
      on_packet_cases exchange m (Safely (λ v'. IsValid v'.table)) v buffer n addr
        (λ connects. on_connect_req-Safely v buffer addr w)
        (λ other. (
          on_data-Safely v _ addr w small
              (omega (arith, length-drop header_size (take n buffer), length-take_le n buffer)),
          on_ping-Safely v addr w,
          on_disconnect-Safely v addr w,
          w,
        ))

  -- If the table is valid and the peer's decryptions fit the server's buffer, then, whatever
  -- arrives from whomever, the handler of the UDP socket uses no null pointer, writes past no
  -- buffer and leaves the table valid.
  pub handle_udp_to_tun-IsValid :
      (v : Server P) (stale : Bytes) (received : Option (Bytes × SockAddr))
      → IsValid v.table
      → SmallAnswers exchange v.link
      → Safely (λ v'. IsValid v'.table) (handle_udp_to_tun exchange m v stale received)
  unfolding handle_udp_to_tun
  handle_udp_to_tun-IsValid v stale none w small = w
  handle_udp_to_tun-IsValid v stale (some (datagram, addr)) w small =
      let got = take buffer_size datagram in
      elim (Bool-cases (ltb (length got) header_size)) [
        | inl short ↦ rw short w
        | inr long ↦ rw long (
            on_packet-Safely v (got ++ drop (length got) stale) (length got) addr w small
              (length-take_le buffer_size datagram))
      ]
