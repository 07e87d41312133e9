-- ===== src/VpnClient/Program/Descriptors.antt =====
-- Which descriptors the client holds: VPN/src/client/vpn_client.c.
use cloud_service.Config.{VpnConfig}
use cloud_service.Base.{
  ℕ, ◌<◌, ◌≤◌, ◌≡◌, ◌≢◌, ◌⊎◌, refl, ap, sym, ◌∙◌, subst, Bool, true, false, Option, none, some, inl,
  inr, List, [], ◌∷◌, ◌++◌, ◌==◌, arith, Bool-cases, Option-cases, ==_refl,
}
use cloud_service.System.{System, Outcomes, close, close_open, without, new_descriptor, run_command}
use cloud_service.System.Sockets.{
  Opens, new_descriptor-Opens, create_tun_interface, create_tun_interface-Opens, configure_tun_ip,
  bring_tun_up,
}
use cloud_service.Text.{codes}
use cloud_service.VpnClient.Program.{
  ClientState, recreate_socket, with_socket, setup_client_tun, with_tun, with_address,
  tun_or_closed,
}
use cloud_service.Wire.{Bytes}

abbrev pub held : Option ℕ → List ℕ
held none = []
held (some fd) = fd ∷ []

abbrev pub Below : ℕ → Option ℕ → Type 0
Below n none = Unit
Below n (some fd) = fd < n

abbrev Apart : Option ℕ → Option ℕ → Type 0
Apart none y = Unit
Apart (some x) none = Unit
Apart (some x) (some y) = x ≢ y

abbrev pub Open : Option ℕ → Type 0
Open none = ⊥
Open (some fd) = Unit

-- `fds` is `base` with the two descriptors, in either order, before it.
abbrev Joined : List ℕ → Option ℕ → Option ℕ → List ℕ → Type 0
Joined base sock tun fds =
    (fds ≡ held tun ++ (held sock ++ base)) ⊎ (fds ≡ held sock ++ (held tun ++ base))

-- The client holds its socket and its interface, as far as they are there, besides `base`.
abbrev pub Owns : List ℕ → ClientState → Type 0
Owns base c =
    Below c.system.next_descriptor c.sock_fd
    × Below c.system.next_descriptor c.tun_fd
    × Apart c.sock_fd c.tun_fd
    × Joined base c.sock_fd c.tun_fd c.system.descriptors

-- Both are there.
abbrev pub IsRunning : List ℕ → ClientState → Type 0
IsRunning base c = Owns base c × Open c.sock_fd × Open c.tun_fd

close_open-Joined :
    (s : System) (base : List ℕ) (sock tun : Option ℕ)
    → Apart sock tun
    → Joined base sock tun s.descriptors
    → (close_open s sock).descriptors ≡ held tun ++ base
unfolding close without
close_open-Joined s base none none apart h = ground arith
close_open-Joined s base none (some tun) apart h = ground arith
close_open-Joined s base (some sock) none apart (inl h) = rw (h, ==_refl sock) refl
close_open-Joined s base (some sock) none apart (inr h) = rw (h, ==_refl sock) refl
close_open-Joined s base (some sock) (some tun) apart (inl h) =
    let other : (tun == sock) ≡ false = ground (arith, apart) in rw (h, other, ==_refl sock) refl
close_open-Joined s base (some sock) (some tun) apart (inr h) = rw (h, ==_refl sock) refl

close_rest :
    (s : System) (base : List ℕ) (fd : Option ℕ)
    → s.descriptors ≡ held fd ++ base
    → (close_open s fd).descriptors ≡ base
unfolding close without
close_rest s base none h = h
close_rest s base (some fd) h = rw (h, ==_refl fd) refl

close_open-next :
    (s : System) (fd : Option ℕ) → (close_open s fd).next_descriptor ≡ s.next_descriptor
unfolding close
close_open-next s none = refl
close_open-next s (some fd) = refl

-- The interface stays, and the socket is there if the call succeeds.
abbrev pub Recreated : List ℕ → ClientState → ClientState × Bool → Type 0
Recreated base c (c', true) = Owns base c' × Open c'.sock_fd × (c'.tun_fd ≡ c.tun_fd)
Recreated base c (c', false) = Owns base c'

Below-Apart : (n : ℕ) (fd : Option ℕ) → Below n fd → Apart (some n) fd
Below-Apart n none h = tt
Below-Apart n (some fd) h = ground arith

Apart-Below : (n : ℕ) (fd : Option ℕ) → Below n fd → Apart fd (some n)
Apart-Below n none h = tt
Apart-Below n (some fd) h = ground arith

Apart-none : (fd : Option ℕ) → Apart fd none
Apart-none none = tt
Apart-none (some fd) = tt

Below-more : (n m : ℕ) (fd : Option ℕ) → n ≤ m → Below n fd → Below m fd
Below-more n m none le h = tt
Below-more n m (some fd) le h = omega arith

pub destroyed :
    (c : ClientState) (base : List ℕ)
    → Owns base c
    → (close_open (close_open c.system c.sock_fd) c.tun_fd).descriptors ≡ base
destroyed c base h = close_rest (close_open c.system c.sock_fd) base c.tun_fd (owned h)
  where
    owned : Owns base c → (close_open c.system c.sock_fd).descriptors ≡ held c.tun_fd ++ base
    owned (below, below', apart, joined) =
        close_open-Joined c.system base c.sock_fd c.tun_fd apart joined

module _ (o : Outcomes) where
  module _ (inet_pton : Bytes → Bool) (config : VpnConfig) (base : List ℕ) (c : ClientState) where
    with_socket-Owns :
        (s : System) (q : System × Option ℕ)
        → Opens s q
        → s.descriptors ≡ held c.tun_fd ++ base
        → Below s.next_descriptor c.tun_fd
        → Recreated base c (with_socket o inet_pton config c q)
    unfolding close without
    with_socket-Owns s (s', none) (e, e', le) d below =
        (tt, Below-more s.next_descriptor s'.next_descriptor c.tun_fd le below, tt, inl (e ∙ d))
    with_socket-Owns s (s', some fd) (e, e', le, lt) d below =
        let below' : Below s'.next_descriptor c.tun_fd =
          Below-more s.next_descriptor s'.next_descriptor c.tun_fd (omega arith) below in
        let apart : Apart (some fd) c.tun_fd =
          Below-Apart fd c.tun_fd (Below-more s.next_descriptor fd c.tun_fd le below) in
        elim (Bool-cases (inet_pton config.server_address)) [
          | inl valid ↦ rw valid ((lt, below', apart, inr (e ∙ ap (λ fds. fd ∷ fds) d)), tt, refl)
          | inr invalid ↦ rw (invalid, e, ==_refl fd) (tt, below', tt, inl d)
        ]

    pub recreate_socket-Owns : Owns base c → Recreated base c (recreate_socket o inet_pton config c)
    unfolding recreate_socket
    recreate_socket-Owns (below, below', apart, joined) =
        let closed : System = close_open c.system c.sock_fd in
        with_socket-Owns closed (new_descriptor o closed) (new_descriptor-Opens o closed)
          (close_open-Joined c.system base c.sock_fd c.tun_fd apart joined)
          (subst (λ n. Below n c.tun_fd) (sym (close_open-next c.system c.sock_fd)) below')

  module _ (inet_ntop : ℕ → Bytes) (base : List ℕ) where
    abbrev pub SetUp : ClientState × Bool → Type 0
    SetUp (c, true) = IsRunning base c
    SetUp (c, false) = Owns base c

    module _ (c : ClientState) (socket : Open c.sock_fd) where
      tun_or_closed-SetUp :
          (fd : ℕ) (q : System × Bool)
          → q.0.descriptors ≡ fd ∷ (held c.sock_fd ++ base)
          → fd < q.0.next_descriptor
          → Below fd c.sock_fd
          → SetUp (tun_or_closed o inet_ntop c fd q)
      unfolding close without
      tun_or_closed-SetUp fd (s, true) d lt below = (
        (
          Below-more fd s.next_descriptor c.sock_fd (omega arith) below,
          lt,
          Apart-Below fd c.sock_fd below,
          inl d,
        ),
        socket,
        tt,
      )
      tun_or_closed-SetUp fd (s, false) d lt below = (
        Below-more fd s.next_descriptor c.sock_fd (omega arith) below,
        tt,
        Apart-none c.sock_fd,
        rw (d, ==_refl fd) (inl refl),
      )

      with_address-SetUp :
          (fd : ℕ) (q : System × Bool)
          → q.0.descriptors ≡ fd ∷ (held c.sock_fd ++ base)
          → fd < q.0.next_descriptor
          → Below fd c.sock_fd
          → SetUp (with_address o inet_ntop c fd q)
      unfolding bring_tun_up run_command
      with_address-SetUp fd (s, true) d lt below =
          tun_or_closed-SetUp fd (bring_tun_up o s (codes "tun1")) d lt below
      with_address-SetUp fd (s, false) d lt below = tun_or_closed-SetUp fd (s, false) d lt below

      with_tun-SetUp :
          (s : System) (q : System × Option ℕ)
          → Opens s q
          → s.descriptors ≡ held c.sock_fd ++ base
          → Below s.next_descriptor c.sock_fd
          → SetUp (with_tun o inet_ntop c q)
      unfolding configure_tun_ip run_command
      with_tun-SetUp s (s', none) (e, e', le) d below = (
        Below-more s.next_descriptor s'.next_descriptor c.sock_fd le below,
        tt,
        Apart-none c.sock_fd,
        inl (e ∙ d),
      )
      with_tun-SetUp s (s', some fd) (e, e', le, lt) d below =
          with_address-SetUp fd
            (configure_tun_ip o s' (codes "tun1") (inet_ntop c.client.vpn_ip) 24) (rw d at e) lt
            (Below-more s.next_descriptor fd c.sock_fd le below)

      pub setup_client_tun-SetUp : Owns base c → SetUp (setup_client_tun o inet_ntop c)
      unfolding setup_client_tun
      setup_client_tun-SetUp owns = elim (Option-cases c.tun_fd) [
        | inl closed ↦
            rw (closed, setup_client_tun)
              (with_tun-SetUp c.system (create_tun_interface o c.system)
                (create_tun_interface-Opens o c.system)
                (alone c.system.descriptors (rw closed at owns.3)) owns.0)
        | inr (fd, opened) ↦ rw (opened, setup_client_tun) (owns, socket, rw opened tt)
      ]
        where
          alone : (fds : List ℕ) → Joined base c.sock_fd none fds → fds ≡ held c.sock_fd ++ base
          alone fds (inl h) = h
          alone fds (inr h) = h
