-- ===== src/Server/Program.antt =====
-- The start-up and the clean-up of `main` in VPN/src/server/vpn_server.c: what the server holds of the
-- operating system. The enclave that answers on the new connection is the parameter `peer`.
pub mod Holds
pub mod Main
use cloud_service.Base.{
  ℕ, suc, ◌+◌, ◌<◌, ◌≤◌, ◌≡◌, ◌≢◌, refl, ap, Bool, true, false, not, Option, none, some, inl, inr,
  List, [], ◌∷◌, ◌++◌, ◌==◌, if◌then◌else◌, arith, Bool-cases, Option-cases,
}
use cloud_service.Clients.{init_client_table}
use cloud_service.EnclaveClient.{Link, enclave_ping, enclave_shutdown}
use cloud_service.Server.{Server}
use cloud_service.System.{System, Outcomes, close, attempt}
use cloud_service.System.Processes.{start_enclave_process, stop_enclave_process, has_exited}
use cloud_service.System.Sockets.{
  create_tun_interface, configure_tun_ip, bring_tun_up, create_udp_server, enclave_connect,
  enclave_disconnect,
}
use cloud_service.Text.{codes}
use cloud_service.Wire.{Bytes}

-- `enclave_pid`, `enclave_fd`, `tun_fd`, `udp_fd` and the server's own state
pub record Running (P : Type 0) : Type 0 where
  pub enclave_pid : ℕ
  pub enclave_fd : ℕ
  pub tun_fd : ℕ
  pub udp_fd : ℕ
  pub server : Server P

module _ {P : Type 0} (exchange : P → Bytes → Option (P × Bytes)) (o : Outcomes) (peer : P) where
  abbrev pub fresh_link : Link P
  fresh_link = record { peer = peer; unread = []; request_id = 0 }

  -- what every failure after `enclave_connect` ends with
  abbrev pub give_up : System → ℕ → ℕ → System × Option (Running P)
  give_up s pid enclave_fd =
      (stop_enclave_process o (enclave_disconnect s (some enclave_fd)) (some pid), none)

  -- from `init_client_table` on
  abbrev pub with_table : ℕ → ℕ → ℕ → ℕ → Link P → System × Bool → System × Option (Running P)
  with_table pid enclave_fd tun_fd udp_fd link (s, false) =
      give_up (close (close s udp_fd) tun_fd) pid enclave_fd
  with_table pid enclave_fd tun_fd udp_fd link (s, true) = (
    s,
    some (record {
      enclave_pid = pid;
      enclave_fd = enclave_fd;
      tun_fd = tun_fd;
      udp_fd = udp_fd;
      server = record { table = init_client_table; link = link; sequence = 0 };
    }),
  )

  -- from `create_udp_server` on
  abbrev pub with_udp : ℕ → ℕ → ℕ → Link P → System × Option ℕ → System × Option (Running P)
  with_udp pid enclave_fd tun_fd link (s, none) = give_up (close s tun_fd) pid enclave_fd
  with_udp pid enclave_fd tun_fd link (s, some udp_fd) =
      with_table pid enclave_fd tun_fd udp_fd link (attempt o s)

  abbrev pub with_tun_up : ℕ → ℕ → ℕ → Link P → System × Bool → System × Option (Running P)
  with_tun_up pid enclave_fd tun_fd link (s, false) = give_up (close s tun_fd) pid enclave_fd
  with_tun_up pid enclave_fd tun_fd link (s, true) =
      with_udp pid enclave_fd tun_fd link (create_udp_server o s)

  abbrev pub with_tun_ip : ℕ → ℕ → ℕ → Link P → System × Bool → System × Option (Running P)
  with_tun_ip pid enclave_fd tun_fd link (s, false) = give_up (close s tun_fd) pid enclave_fd
  with_tun_ip pid enclave_fd tun_fd link (s, true) =
      with_tun_up pid enclave_fd tun_fd link (bring_tun_up o s (codes "tun0"))

  abbrev pub with_tun : ℕ → ℕ → Link P → System × Option ℕ → System × Option (Running P)
  with_tun pid enclave_fd link (s, none) = give_up s pid enclave_fd
  with_tun pid enclave_fd link (s, some tun_fd) =
      with_tun_ip pid enclave_fd tun_fd link
        (configure_tun_ip o s (codes "tun0") (codes "10.8.0.1") 24)

  -- from the PING on
  abbrev pub with_ping : System → ℕ → ℕ → Link P × Bool → System × Option (Running P)
  with_ping s pid enclave_fd (link, false) = give_up s pid enclave_fd
  with_ping s pid enclave_fd (link, true) = with_tun pid enclave_fd link (create_tun_interface o s)

  abbrev pub with_connection : ℕ → System × Option ℕ → System × Option (Running P)
  with_connection pid (s, none) = (stop_enclave_process o s (some pid), none)
  with_connection pid (s, some enclave_fd) =
      with_ping s pid enclave_fd (enclave_ping exchange fresh_link)

  abbrev pub with_enclave : System × Option ℕ → System × Option (Running P)
  with_enclave (s, none) = (s, none)
  with_enclave (s, some pid) = with_connection pid (enclave_connect o s)

  -- `main` up to the event loop; `none` is `return 1`
  unfoldable pub start_server : System → System × Option (Running P)
  start_server s = with_enclave (start_enclave_process o s)

module _ {P : Type 0} (exchange : P → Bytes → Option (P × Bytes)) (o : Outcomes) where
  -- the clean-up once `enclave_shutdown` has returned, whatever the enclave answered
  abbrev pub clean_up : System → Running P → System
  clean_up s r =
      let s1 = enclave_disconnect s (some r.enclave_fd) in
      let s2 = stop_enclave_process o s1 (some r.enclave_pid) in close (close s2 r.udp_fd) r.tun_fd

  -- `main` from the end of the event loop on. The first `send` to an enclave that has ended raises
  -- SIGPIPE, which nothing catches: `none` is a server that this ends before anything is cleaned up.
  unfoldable pub stop_server : System → Running P → Option (System × Link P)
  stop_server s r =
      if has_exited s r.enclave_pid
      then none
      else some (clean_up s r, (enclave_shutdown exchange r.server.link).0)
