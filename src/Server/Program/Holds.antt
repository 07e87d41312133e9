-- ===== src/Server/Program/Holds.antt =====
-- What the server's start-up and clean-up do to the descriptors and the children of the process: all
-- branches of the start of `main`, VPN/src/server/vpn_server.c.
use cloud_service.Base.{
  if_true, if_false, ap, ℕ, ◌<◌, ◌≡◌, ◌∙◌, refl, Bool, true, false, Option, none, some, List, ◌∷◌,
  arith, ==_refl,
}
use cloud_service.EnclaveClient.{Link, enclave_ping, enclave_shutdown}
use cloud_service.Server.Program.{
  Running, fresh_link, give_up, with_table, with_udp, with_tun_up, with_tun_ip, with_tun, with_ping,
  with_connection, with_enclave, start_server, stop_server, clean_up,
}
use cloud_service.System.{System, Outcomes, Child, close, without, attempt, run_command}
use cloud_service.System.Processes.{
  start_enclave_process, stop_enclave_process, find_child, remove_child, stop_enclave_process_lem,
  has_exited, is_zombie,
}
use cloud_service.System.Sockets.{
  Opens, create_tun_interface, configure_tun_ip, bring_tun_up, create_udp_server, enclave_connect,
  enclave_disconnect, create_tun_interface-Opens, create_udp_server-Opens, enclave_connect-Opens,
}
use cloud_service.Text.{codes}
use cloud_service.Wire.{Bytes}

-- A start-up that fails holds nothing new; one that succeeds holds three descriptors and one child.
abbrev pub Holds : {P : Type 0} → System → System × Option (Running P) → Type 0
Holds s (s', none) = (s'.descriptors ≡ s.descriptors) × (s'.children ≡ s.children)
Holds s (s', some r) =
    (s'.descriptors ≡ r.udp_fd ∷ r.tun_fd ∷ r.enclave_fd ∷ s.descriptors)
    × (s'.children ≡ record { pid = r.enclave_pid; exited = false } ∷ s.children)
    × (r.enclave_fd < r.tun_fd)
    × (r.tun_fd < r.udp_fd)

abbrev Forks : System → System × Option ℕ → Type 0
Forks s (s', none) = (s'.descriptors ≡ s.descriptors) × (s'.children ≡ s.children)
Forks s (s', some pid) =
    (s'.descriptors ≡ s.descriptors)
    × (s'.children ≡ record { pid = pid; exited = false } ∷ s.children)

start_enclave_process-Forks : (o : Outcomes) (s : System) → Forks s (start_enclave_process o s)
unfolding start_enclave_process
start_enclave_process-Forks o s = ground arith

without-head : (x : ℕ) (xs : List ℕ) → without x (x ∷ xs) ≡ xs
unfolding without
without-head x xs = rw (==_refl x) refl

close-head :
    (s : System) (fd : ℕ) {fds : List ℕ} → s.descriptors ≡ fd ∷ fds → (close s fd).descriptors ≡ fds
unfolding close
close-head s fd {fds} h = rw (h, without-head fd fds) refl

close-children : (s : System) (fd : ℕ) → (close s fd).children ≡ s.children
unfolding close
close-children s fd = refl

find_child-head : (c : Child) (cs : List Child) → find_child c.pid (c ∷ cs) ≡ some c
unfolding find_child
find_child-head c cs = rw (==_refl c.pid) refl

remove_child-head : (c : Child) (cs : List Child) → remove_child c.pid (c ∷ cs) ≡ cs
unfolding remove_child
remove_child-head c cs = rw (==_refl c.pid) refl

pub stop_enclave_process-head :
    (o : Outcomes) (s : System) (c : Child) {cs : List Child}
    → s.children ≡ c ∷ cs
    → ((stop_enclave_process o s (some c.pid)).children ≡ cs)
      × ((stop_enclave_process o s (some c.pid)).descriptors ≡ s.descriptors)
stop_enclave_process-head o s c {cs} h =
    let (n, e) = stop_enclave_process_lem o s c.pid {c = c} (rw h (find_child-head c cs)) in
    (rw (e, h) (remove_child-head c cs), rw e refl)

module _ {P : Type 0} (exchange : P → Bytes → Option (P × Bytes)) (o : Outcomes) (peer : P)
    (s0 : System) (pid : ℕ) where
  abbrev child : Child
  child = record { pid = pid; exited = false }

  give_up-Holds :
      (s : System) (fd : ℕ)
      → s.descriptors ≡ fd ∷ s0.descriptors
      → s.children ≡ child ∷ s0.children
      → Holds s0 (give_up exchange o peer s pid fd)
  unfolding enclave_disconnect
  give_up-Holds s fd d c =
      let (c', d') = stop_enclave_process-head o (close s fd) child ((close-children s fd) ∙ c) in
      (d' ∙ close-head s fd d, c')

  module _ (fd : ℕ) where
    give_up-tun :
        (s : System) (tun_fd : ℕ)
        → s.descriptors ≡ tun_fd ∷ fd ∷ s0.descriptors
        → s.children ≡ child ∷ s0.children
        → Holds s0 (give_up exchange o peer (close s tun_fd) pid fd)
    give_up-tun s tun_fd d c =
        give_up-Holds (close s tun_fd) fd (close-head s tun_fd d) (close-children s tun_fd ∙ c)

    with_table-Holds :
        (tun_fd udp_fd : ℕ) (link : Link P) (q : System × Bool)
        → q.0.descriptors ≡ udp_fd ∷ tun_fd ∷ fd ∷ s0.descriptors
        → q.0.children ≡ child ∷ s0.children
        → fd < tun_fd
        → tun_fd < udp_fd
        → Holds s0 (with_table exchange o peer pid fd tun_fd udp_fd link q)
    with_table-Holds tun_fd udp_fd link (s, true) d c lt lt' = (d, c, lt, lt')
    with_table-Holds tun_fd udp_fd link (s, false) d c lt lt' =
        give_up-tun (close s udp_fd) tun_fd (close-head s udp_fd d) (close-children s udp_fd ∙ c)

    module _ (tun_fd : ℕ) (link : Link P) where
      with_udp-Holds :
          (s : System) (q : System × Option ℕ)
          → Opens s q
          → s.descriptors ≡ tun_fd ∷ fd ∷ s0.descriptors
          → s.children ≡ child ∷ s0.children
          → fd < tun_fd
          → tun_fd < s.next_descriptor
          → Holds s0 (with_udp exchange o peer pid fd tun_fd link q)
      unfolding attempt
      with_udp-Holds s (s', none) (e, e', le) d c lt lt' = give_up-tun s' tun_fd (e ∙ d) (e' ∙ c)
      with_udp-Holds s (s', some udp_fd) (e, e', le, less) d c lt lt' =
          with_table-Holds tun_fd udp_fd link (attempt o s') (rw d at e) (e' ∙ c) lt (omega arith)

      with_tun_up-Holds :
          (q : System × Bool)
          → q.0.descriptors ≡ tun_fd ∷ fd ∷ s0.descriptors
          → q.0.children ≡ child ∷ s0.children
          → fd < tun_fd
          → tun_fd < q.0.next_descriptor
          → Holds s0 (with_tun_up exchange o peer pid fd tun_fd link q)
      with_tun_up-Holds (s, false) d c lt lt' = give_up-tun s tun_fd d c
      with_tun_up-Holds (s, true) d c lt lt' =
          with_udp-Holds s (create_udp_server o s) (create_udp_server-Opens o s) d c lt lt'

      with_tun_ip-Holds :
          (q : System × Bool)
          → q.0.descriptors ≡ tun_fd ∷ fd ∷ s0.descriptors
          → q.0.children ≡ child ∷ s0.children
          → fd < tun_fd
          → tun_fd < q.0.next_descriptor
          → Holds s0 (with_tun_ip exchange o peer pid fd tun_fd link q)
      unfolding bring_tun_up run_command
      with_tun_ip-Holds (s, false) d c lt lt' = give_up-tun s tun_fd d c
      with_tun_ip-Holds (s, true) d c lt lt' =
          with_tun_up-Holds (bring_tun_up o s (codes "tun0")) d c lt lt'

    with_tun-Holds :
        (link : Link P) (s : System) (q : System × Option ℕ)
        → Opens s q
        → s.descriptors ≡ fd ∷ s0.descriptors
        → s.children ≡ child ∷ s0.children
        → fd < s.next_descriptor
        → Holds s0 (with_tun exchange o peer pid fd link q)
    unfolding configure_tun_ip run_command
    with_tun-Holds link s (s', none) (e, e', le) d c lt = give_up-Holds s' fd (e ∙ d) (e' ∙ c)
    with_tun-Holds link s (s', some tun_fd) (e, e', le, less) d c lt =
        with_tun_ip-Holds tun_fd link (configure_tun_ip o s' (codes "tun0") (codes "10.8.0.1") 24)
          (rw d at e) (e' ∙ c) (omega arith) less

    with_ping-Holds :
        (s : System) (q : Link P × Bool)
        → s.descriptors ≡ fd ∷ s0.descriptors
        → s.children ≡ child ∷ s0.children
        → fd < s.next_descriptor
        → Holds s0 (with_ping exchange o peer s pid fd q)
    with_ping-Holds s (link, false) d c lt = give_up-Holds s fd d c
    with_ping-Holds s (link, true) d c lt =
        with_tun-Holds link s (create_tun_interface o s) (create_tun_interface-Opens o s) d c lt

  with_connection-Holds :
      (s : System) (q : System × Option ℕ)
      → Opens s q
      → s.descriptors ≡ s0.descriptors
      → s.children ≡ child ∷ s0.children
      → Holds s0 (with_connection exchange o peer pid q)
  with_connection-Holds s (s', none) (e, e', le) d c =
      let (c', d') = stop_enclave_process-head o s' child (e' ∙ c) in (d' ∙ e ∙ d, c')
  with_connection-Holds s (s', some fd) (e, e', le, less) d c =
      with_ping-Holds fd s' (enclave_ping exchange (fresh_link exchange o peer)) (rw d at e)
        (e' ∙ c) less

without-third : (x y z : ℕ) (ws : List ℕ) → x < y → y < z → without x (z ∷ y ∷ x ∷ ws) ≡ z ∷ y ∷ ws
unfolding without
without-third x y z ws lt lt' = ground arith

-- A clean-up with a living enclave gives everything back; one with a dead enclave does not happen.
abbrev pub Stops : {P : Type 0} → System → Bool → Option (System × Link P) → Type 0
Stops s true r = r ≡ none
Stops {P} s false r =
    (e : System × Link P) × (r ≡ some e)
    × (e.0.descriptors ≡ s.descriptors)
    × (e.0.children ≡ s.children)

has_exited-head :
    (s : System) (c : Child) {cs : List Child} → s.children ≡ c ∷ cs → has_exited s c.pid ≡ c.exited
has_exited-head s c {cs} h =
    ap (λ x. is_zombie (find_child c.pid x)) h ∙ ap is_zombie (find_child-head c cs)

module _ {P : Type 0} (exchange : P → Bytes → Option (P × Bytes)) (o : Outcomes) where
  clean_up-Holds :
      (s later : System) (r : Running P) (dead : Bool)
      → later.descriptors ≡ r.udp_fd ∷ r.tun_fd ∷ r.enclave_fd ∷ s.descriptors
      → later.children ≡ record { pid = r.enclave_pid; exited = dead } ∷ s.children
      → r.enclave_fd < r.tun_fd
      → r.tun_fd < r.udp_fd
      → ((clean_up exchange o later r).descriptors ≡ s.descriptors)
        × ((clean_up exchange o later r).children ≡ s.children)
  unfolding enclave_disconnect close
  clean_up-Holds s later r dead d c lt lt' =
      let (c', d') =
        stop_enclave_process-head o (close later r.enclave_fd)
          (record { pid = r.enclave_pid; exited = dead }) c in
      (
        rw
            (
              d',
              d,
              without-third r.enclave_fd r.tun_fd r.udp_fd s.descriptors lt lt',
              without-head,
              without-head,
            )
            refl,
        c',
      )

  pub stop_server-Stops :
      (s later : System) (r : Running P) (dead : Bool)
      → later.descriptors ≡ r.udp_fd ∷ r.tun_fd ∷ r.enclave_fd ∷ s.descriptors
      → later.children ≡ record { pid = r.enclave_pid; exited = dead } ∷ s.children
      → r.enclave_fd < r.tun_fd
      → r.tun_fd < r.udp_fd
      → Stops s dead (stop_server exchange o later r)
  unfolding stop_server
  stop_server-Stops s later r true d c lt lt' =
      if_true (has_exited later r.enclave_pid) _ _
        (has_exited-head later (record { pid = r.enclave_pid; exited = true }) c)
  stop_server-Stops s later r false d c lt lt' =
      let (d', c') = clean_up-Holds s later r false d c lt lt' in
      (
        (clean_up exchange o later r, (enclave_shutdown exchange r.server.link).0),
        if_false (has_exited later r.enclave_pid) _ _
            (has_exited-head later (record { pid = r.enclave_pid; exited = false }) c),
        d',
        c',
      )

module _ {P : Type 0} (exchange : P → Bytes → Option (P × Bytes)) (o : Outcomes) where
  with_enclave-Holds :
      (peer : P) (s : System) (q : System × Option ℕ)
      → Forks s q
      → Holds s (with_enclave exchange o peer q)
  with_enclave-Holds peer s (s', none) h = h
  with_enclave-Holds peer s (s', some pid) (d, c) =
      with_connection-Holds exchange o peer s pid s' (enclave_connect o s')
        (enclave_connect-Opens o s') d c

  -- Whatever call fails during the start-up, the server has closed every descriptor it opened and
  -- stopped the enclave before it gives up; a start-up that succeeds holds the UDP socket, the TUN
  -- descriptor and the connection, each another descriptor, and the enclave as a running child.
  pub start_server-Holds : (peer : P) (s : System) → Holds s (start_server exchange o peer s)
  unfolding start_server
  start_server-Holds peer s =
      with_enclave-Holds peer s (start_enclave_process o s) (start_enclave_process-Forks o s)

  -- A server that is stopped after a successful start-up, with the descriptors and the children it had
  -- at the end of the start-up: if the enclave still runs, the clean-up comes to its end and leaves
  -- the descriptors and the children there were before the start-up, whatever the enclave answers and
  -- however long it takes to end; if the enclave has died by then, the server is ended by SIGPIPE
  -- before it has cleaned up anything.
  pub stop_server-start_server :
      (peer : P) (s s' later : System) (r : Running P) (dead : Bool)
      → start_server exchange o peer s ≡ (s', some r)
      → later.descriptors ≡ s'.descriptors
      → later.children ≡ record { pid = r.enclave_pid; exited = dead } ∷ s.children
      → Stops s dead (stop_server exchange o later r)
  stop_server-start_server peer s s' later r dead started d c =
      let (d', c', lt, lt') = rw started at (start_server-Holds peer s) in
      stop_server-Stops exchange o s later r dead (d ∙ d') c lt lt'
