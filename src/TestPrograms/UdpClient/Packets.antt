-- ===== src/TestPrograms/UdpClient/Packets.antt =====
-- What udp_test_client.c sends, however it ends.
use cloud_service.Base.{
  ℕ, ◌≡◌, ◌⊎◌, inl, inr, refl, Bool, true, false, Option, none, some, List, [], ◌∷◌, ◌++◌, if_holds,
  ==_refl,
}
use cloud_service.System.{System, Outcomes, close, attempt, new_descriptor, without}
use cloud_service.System.Sockets.{Opens, new_descriptor-Opens}
use cloud_service.TestPrograms.UdpClient.{
  Inputs, Outcome, three_packets, after_data, after_ping, after_request, with_socket,
  udp_test_client,
}
use cloud_service.Wire.{Bytes}

module _ (o : Outcomes) (valid : Bytes → Bool) (i : Inputs) where
  -- The descriptors are as before; with the status 0 all three packets were sent, with the status 1
  -- a part that lacks at least the last.
  abbrev pub Ends : System → Outcome → Type 0
  Ends s r =
      (r.system.descriptors ≡ s.descriptors)
      × (((r.status ≡ 0) × (r.sent ≡ three_packets o valid i))
          ⊎ ((r.status ≡ 1)
              × ((p : Bytes) × (rest : List Bytes) × (r.sent ++ (p ∷ rest)
                    ≡ three_packets o valid i))))

  module _ (s0 : System) (fd : ℕ) where
    after_data-Ends :
        (q : System × Bool)
        → q.0.descriptors ≡ fd ∷ s0.descriptors
        → Ends s0 (after_data o valid i fd q)
    unfolding close without
    after_data-Ends (s, true) h = (rw (h, ==_refl fd) refl, inl (refl, refl))
    after_data-Ends (s, false) h = (rw (h, ==_refl fd) refl, inr (refl, (_, [], refl)))

    after_ping-Ends :
        (q : System × Bool)
        → q.0.descriptors ≡ fd ∷ s0.descriptors
        → Ends s0 (after_ping o valid i fd q)
    unfolding close without attempt
    after_ping-Ends (s, true) h = after_data-Ends (attempt o s) h
    after_ping-Ends (s, false) h = (rw (h, ==_refl fd) refl, inr (refl, (_, _ ∷ [], refl)))

    after_request-Ends :
        (q : System × Bool)
        → q.0.descriptors ≡ fd ∷ s0.descriptors
        → Ends s0 (after_request o valid i fd q)
    unfolding close without attempt
    after_request-Ends (s, true) h = after_ping-Ends (attempt o (attempt o s).0) h
    after_request-Ends (s, false) h = (rw (h, ==_refl fd) refl, inr (refl, (_, _, refl)))

    invalid-Ends :
        (s : System)
        → s.descriptors ≡ fd ∷ s0.descriptors
        → Ends s0 (record { system = close s fd; sent = []; verdict = none; status = 1 })
    unfolding close without
    invalid-Ends s h = (rw (h, ==_refl fd) refl, inr (refl, (_, _, refl)))

  with_socket-Ends :
      (s0 : System) (server_ip : Bytes) (q : System × Option ℕ)
      → Opens s0 q
      → Ends s0 (with_socket o valid i server_ip q)
  unfolding attempt
  with_socket-Ends s0 server_ip (s, none) (d, c, le) = (d, inr (refl, (_, _, refl)))
  with_socket-Ends s0 server_ip (s, some fd) (d, c, le, lt) =
      if_holds (Ends s0) (valid server_ip) (after_request-Ends s0 fd (attempt o s) d)
        (invalid-Ends s0 fd s d)

  -- However the program ends (no or too many arguments, no socket, an address that is none, a send
  -- that fails, or all well), it has closed its socket, and what it sent is the beginning of the
  -- sequence CONNECT_REQ, PING, DATA: all of it with the status 0, and less with the status 1.
  pub udp_test_client-Ends :
      (s : System) (args : List Bytes) → Ends s (udp_test_client o valid i s args)
  unfolding udp_test_client
  udp_test_client-Ends s [] = (refl, inr (refl, (_, _, refl)))
  udp_test_client-Ends s (server_ip ∷ []) =
      with_socket-Ends s server_ip (new_descriptor o s) (new_descriptor-Opens o s)
  udp_test_client-Ends s (a ∷ b ∷ args) = (refl, inr (refl, (_, _, refl)))
