-- ===== src/System/Sockets.antt =====
-- Opening and setting up descriptors: create_tun_interface, configure_tun_ip and bring_tun_up of
-- VPN/src/server/tun_manager.c, create_udp_server of VPN/src/server/udp_server.c, enclave_connect and
-- enclave_disconnect of VPN/src/server/enclave_client.c, and create_unix_socket_server of
-- VPN/src/enclave/enclave_main.c.
use cloud_service.Base.{
  ℕ, ◌<◌, ◌≤◌, ◌≡◌, Bool, true, false, Option, none, some, ◌∷◌, ◌++◌, take, arith,
}
use cloud_service.System.{
  System, Outcomes, close, attempt, new_descriptor, run_command, unless_closed, without,
}
use cloud_service.Text.{codes, decimal}
use cloud_service.Wire.{Bytes}

module _ (o : Outcomes) where
  -- The name of the interface only goes to `ioctl`.
  unfoldable pub create_tun_interface : System → System × Option ℕ
  unfolding new_descriptor attempt close
  create_tun_interface s =
      let (s', fd) = new_descriptor o s in
      elim fd [ none ↦ (s', none) | some tun_fd ↦ unless_closed o tun_fd (attempt o s') ]

  -- `snprintf(cmd, sizeof(cmd), ...)` cuts to 255 bytes.
  unfoldable pub configure_tun_ip : System → Bytes → Bytes → ℕ → System × Bool
  unfolding run_command
  configure_tun_ip s dev ip netmask = run_command o s (
      take 255 (
        codes "ip addr add " ++ (ip ++ (codes "/" ++ (decimal netmask ++ (codes " dev " ++ dev))))))

  unfoldable pub bring_tun_up : System → Bytes → System × Bool
  unfolding run_command
  bring_tun_up s dev = run_command o s (take 255 (codes "ip link set " ++ (dev ++ codes " up")))

  -- The result of `setsockopt` only makes a warning.
  unfoldable pub create_udp_server : System → System × Option ℕ
  unfolding new_descriptor attempt close
  create_udp_server s =
      let (s', fd) = new_descriptor o s in
      elim fd [
        | none ↦ (s', none)
        | some udp_fd ↦ unless_closed o udp_fd (attempt o (attempt o s').0)
      ]

  unfoldable pub enclave_connect : System → System × Option ℕ
  unfolding new_descriptor attempt close
  enclave_connect s =
      let (s', fd) = new_descriptor o s in
      elim fd [ none ↦ (s', none) | some sock_fd ↦ unless_closed o sock_fd (attempt o s') ]

  -- from `listen` on; `bind` before it
  abbrev pub listening : ℕ → System × Bool → System × Option ℕ
  listening fd (s, true) = unless_closed o fd (attempt o s)
  listening fd (s, false) = (close s fd, none)

  unfoldable pub create_unix_socket_server : System → System × Option ℕ
  unfolding new_descriptor attempt close
  create_unix_socket_server s =
      let (s', fd) = new_descriptor o s in
      elim fd [ none ↦ (s', none) | some sock_fd ↦ listening sock_fd (attempt o s') ]

unfoldable pub enclave_disconnect : System → Option ℕ → System
enclave_disconnect s none = s
enclave_disconnect s (some fd) = close s fd

-- A failed set-up holds what was held before; a successful one holds one descriptor more, a new one.
abbrev pub Opens : System → System × Option ℕ → Type 0
Opens s (s', none) =
    (s'.descriptors ≡ s.descriptors)
    × (s'.children ≡ s.children)
    × (s.next_descriptor ≤ s'.next_descriptor)
Opens s (s', some fd) =
    (s'.descriptors ≡ fd ∷ s.descriptors)
    × (s'.children ≡ s.children)
    × (s.next_descriptor ≤ fd)
    × (fd < s'.next_descriptor)

module _ (o : Outcomes) (s : System) where
  pub new_descriptor-Opens : Opens s (new_descriptor o s)
  unfolding new_descriptor
  new_descriptor-Opens = ground arith

  pub create_tun_interface-Opens : Opens s (create_tun_interface o s)
  unfolding create_tun_interface without
  create_tun_interface-Opens = ground arith

  pub create_udp_server-Opens : Opens s (create_udp_server o s)
  unfolding create_udp_server without
  create_udp_server-Opens = ground arith

  pub enclave_connect-Opens : Opens s (enclave_connect o s)
  unfolding enclave_connect without
  enclave_connect-Opens = ground arith

  pub create_unix_socket_server-Opens : Opens s (create_unix_socket_server o s)
  unfolding create_unix_socket_server without
  create_unix_socket_server-Opens = ground arith
