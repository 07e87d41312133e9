-- ===== src/TestPrograms/TunTest.antt =====
-- `main` of VPN/src/server/tun_test.c: the TUN interface is set up, and the packets that come from it
-- are printed until a read fails, the device ends or a signal comes, which is the end of the list of
-- reads. Of what is printed the model has the texts of print_ip_packet.
use cloud_service.Base.{
  ℕ, ◌+◌, ◌≤◌, ◌≡◌, ◌⊎◌, inl, inr, refl, Bool, true, false, Option, none, some, List, [], ◌∷◌,
  length, arith, take, ==_refl,
}
use cloud_service.System.{System, Outcomes, close, run_command, without}
use cloud_service.System.IpPacket.{print_ip_packet}
use cloud_service.System.Sockets.{
  Opens, create_tun_interface, create_tun_interface-Opens, configure_tun_ip, bring_tun_up,
}
use cloud_service.Text.{codes}
use cloud_service.Wire.{Bytes}

-- the system, the texts printed of packets, `packet_count`, and the exit status
pub record Result : Type 0 where
  pub system : System
  pub printed : List Bytes
  pub packet_count : ℕ
  pub status : ℕ

abbrev failed : System → Result
failed s = record { system = s; printed = []; packet_count = 0; status = 1 }

module _ (inet_ntoa : ℕ → Bytes) where
  -- `while (running)`: `none` is a read that fails, an empty one the end of the device.
  unfoldable pub read_loop : ℕ → List (Option Bytes) → List Bytes × ℕ
  read_loop count [] = ([], count)
  read_loop count (none ∷ reads) = ([], count)
  read_loop count (some [] ∷ reads) = ([], count)
  read_loop count (some (b ∷ packet) ∷ reads) =
      let (printed, total) = read_loop (count + 1) reads in
      (print_ip_packet inet_ntoa (take 2048 (b ∷ packet)) ∷ printed, total)

  module _ (o : Outcomes) (reads : List (Option Bytes)) where
    abbrev pub with_tun_up : ℕ → System × Bool → Result
    with_tun_up tun_fd (s, false) = failed (close s tun_fd)
    with_tun_up tun_fd (s, true) = record {
      system = close s tun_fd;
      printed = (read_loop 0 reads).0;
      packet_count = (read_loop 0 reads).1;
      status = 0;
    }

    abbrev pub with_tun_ip : ℕ → System × Bool → Result
    with_tun_ip tun_fd (s, false) = failed (close s tun_fd)
    with_tun_ip tun_fd (s, true) = with_tun_up tun_fd (bring_tun_up o s (codes "tun0"))

    abbrev pub with_tun : System × Option ℕ → Result
    with_tun (s, none) = failed s
    with_tun (s, some tun_fd) =
        with_tun_ip tun_fd (configure_tun_ip o s (codes "tun0") (codes "10.8.0.1") 24)

    unfoldable pub tun_test : System → Result
    tun_test s = with_tun (create_tun_interface o s)

  read_loop-count :
      (count : ℕ) (reads : List (Option Bytes))
      → ((read_loop count reads).1 ≡ count + length (read_loop count reads).0)
        × (length (read_loop count reads).0 ≤ length reads)
  unfolding read_loop
  read_loop-count count [] = (omega arith, omega arith)
  read_loop-count count (none ∷ reads) = (omega arith, omega arith)
  read_loop-count count (some [] ∷ reads) = (omega arith, omega arith)
  read_loop-count count (some (b ∷ packet) ∷ reads) =
      let (total, few) = read_loop-count (count + 1) reads in
      (omega (arith, total), omega (arith, few))

  -- The descriptors are as before; the count is the number of packets printed.
  abbrev pub Ends : List (Option Bytes) → System → Result → Type 0
  Ends reads s r =
      (r.system.descriptors ≡ s.descriptors)
      × (r.packet_count ≡ length r.printed)
      × (((r.status ≡ 1) × (r.printed ≡ [])) ⊎ ((r.status ≡ 0) × (length r.printed ≤ length reads)))

  module _ (o : Outcomes) (reads : List (Option Bytes)) (s0 : System) where
    with_tun_up-Ends :
        (tun_fd : ℕ) (q : System × Bool)
        → q.0.descriptors ≡ tun_fd ∷ s0.descriptors
        → Ends reads s0 (with_tun_up o reads tun_fd q)
    unfolding close without
    with_tun_up-Ends tun_fd (s, false) h = (rw (h, ==_refl tun_fd) refl, refl, inl (refl, refl))
    with_tun_up-Ends tun_fd (s, true) h =
        let (total, few) = read_loop-count 0 reads in
        (rw (h, ==_refl tun_fd) refl, omega (arith, total), inr (refl, few))

    with_tun_ip-Ends :
        (tun_fd : ℕ) (q : System × Bool)
        → q.0.descriptors ≡ tun_fd ∷ s0.descriptors
        → Ends reads s0 (with_tun_ip o reads tun_fd q)
    unfolding close without bring_tun_up run_command
    with_tun_ip-Ends tun_fd (s, false) h = (rw (h, ==_refl tun_fd) refl, refl, inl (refl, refl))
    with_tun_ip-Ends tun_fd (s, true) h =
        with_tun_up-Ends tun_fd (bring_tun_up o s (codes "tun0")) h

    with_tun-Ends : (q : System × Option ℕ) → Opens s0 q → Ends reads s0 (with_tun o reads q)
    unfolding configure_tun_ip run_command
    with_tun-Ends (s, none) (d, c, le) = (d, refl, inl (refl, refl))
    with_tun-Ends (s, some tun_fd) (d, c, le, lt) =
        with_tun_ip-Ends tun_fd (configure_tun_ip o s (codes "tun0") (codes "10.8.0.1") 24) d

  -- However the test ends (a set-up that fails, a failed read, the end of the device or a signal), it
  -- has closed the interface, and the count that it reports is the number of packets it printed: none
  -- with the status 1, at most one for each read with the status 0.
  pub tun_test-Ends :
      (o : Outcomes) (reads : List (Option Bytes)) (s : System) → Ends reads s (tun_test o reads s)
  unfolding tun_test
  tun_test-Ends o reads s =
      with_tun-Ends o reads s (create_tun_interface o s) (create_tun_interface-Opens o s)
