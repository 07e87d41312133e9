-- ===== src/Clients/Alloc.antt =====
-- The table over a whole run of the server: every sequence of the calls that vpn_server.c makes of it.
use cloud_service.Base.{
  ℕ, suc, ◌+◌, ◌<◌, ◌≤◌, ◌≡◌, ◌≢◌, ap, not, none, inl, inr, arith, Option-cases, List, [], ◌∷◌,
}
use cloud_service.Slots.{find_slot, count_if, count_if-set, count_if-pos, find_slot-get_elem?}
use cloud_service.Clients.{
  SockAddr, ClientTable, max_clients, first_ip, last_ip, is_active, has_vpn_ip, new_entry,
  vpn_ip_host, find_client_by_addr, find_client_by_vpn_ip, add_client, remove_client,
  check_client_timeouts, init_client_table,
}
use cloud_service.Clients.Cases.{add_client_cases, remove_client_cases}
use cloud_service.Clients.Invariant.{
  IsValid, init-IsValid, add_client-IsValid, remove_client-IsValid, check_client_timeouts-IsValid,
}
use cloud_service.Clients.Refine.{has_free_slot, add_client_new, add_new_client_at}
use cloud_service.Clients.Unique.{
  IsFresh, add_client-UniqueAddr, remove_client-UniqueAddr, check_client_timeouts-UniqueAddr,
  add_client-IsFresh, remove_client-IsFresh, check_client_timeouts-IsFresh, init-IsFresh,
  init-UniqueAddr,
}
use cloud_service.Clients.View.{UniqueAddr, UniqueIp}
use cloud_service.Wire.{htonl}

-- One call on the table, with the clock and the random number that it reads.
pub data Op : Type 0 where
  connects : SockAddr → ℕ → ℕ → Op
  removes : ℕ → Op
  sweeps : ℕ → Op

unfoldable pub run_op : ClientTable → Op → ClientTable
run_op t (connects a now random) = (add_client t a now random).0
run_op t (removes ip) = remove_client t ip
run_op t (sweeps now) = check_client_timeouts t now

unfoldable pub run : ClientTable → List Op → ClientTable
unfolding run_op
run t [] = t
run t (o ∷ os) = run (run_op t o) os

abbrev pub connections : List Op → ℕ
connections [] = 0
connections (connects a now random ∷ os) = suc (connections os)
connections (removes ip ∷ os) = connections os
connections (sweeps now ∷ os) = connections os

run_op-IsValid : {t : ClientTable} (o : Op) → IsValid t → IsValid (run_op t o)
unfolding run_op
run_op-IsValid (connects a now random) w = add_client-IsValid a now random w
run_op-IsValid (removes ip) w = remove_client-IsValid ip w
run_op-IsValid (sweeps now) w = check_client_timeouts-IsValid now w

run_op-UniqueAddr : (t : ClientTable) (o : Op) → UniqueAddr t → UniqueAddr (run_op t o)
unfolding run_op
run_op-UniqueAddr t (connects a now random) u = add_client-UniqueAddr t a now random u
run_op-UniqueAddr t (removes ip) u = remove_client-UniqueAddr t ip u
run_op-UniqueAddr t (sweeps now) u = check_client_timeouts-UniqueAddr t now u

run_keeps :
    (t : ClientTable) (os : List Op)
    → IsValid t
    → UniqueAddr t
    → IsValid (run t os) × UniqueAddr (run t os)
unfolding run
run_keeps t [] w u = (w, u)
run_keeps t (o ∷ os) w u = run_keeps (run_op t o) os (run_op-IsValid o w) (run_op-UniqueAddr t o u)

-- Whatever calls the server makes, its table stays valid: 254 slots, `count` the number of active
-- ones, the next address within the pool, every active client at a pool address; and no two active
-- slots have one address.
pub run_init :
    (os : List Op) → IsValid (run init_client_table os) × UniqueAddr (run init_client_table os)
run_init os = run_keeps init_client_table os init-IsValid init-UniqueAddr

next_ip-add_client :
    (t : ClientTable) (a : SockAddr) (now random : ℕ)
    → t.next_ip ≤ last_ip
    → (add_client t a now random).0.next_ip ≤ t.next_ip + 1
next_ip-add_client t a now random small =
    add_client_cases (λ u. u.next_ip ≤ t.next_ip + 1) t a now random (omega arith)
      (λ i e f. omega arith) (λ new i e f. ground arith)

run-IsFresh :
    (t : ClientTable) (os : List Op)
    → IsFresh t
    → t.next_ip + connections os ≤ last_ip + 1
    → IsFresh (run t os)
unfolding run
run-IsFresh t [] w h = w
run-IsFresh t (connects a now random ∷ os) w h =
    run-IsFresh (add_client t a now random).0 os (add_client-IsFresh a now random w (omega arith))
      (omega (arith, next_ip-add_client t a now random (omega arith)))
run-IsFresh t (removes ip ∷ os) w h =
    run-IsFresh (remove_client t ip) os (remove_client-IsFresh ip w)
      (remove_client_cases (λ u. u.next_ip + connections os ≤ last_ip + 1) t ip h (λ i e f. h))
run-IsFresh t (sweeps now ∷ os) w h =
    run-IsFresh (check_client_timeouts t now) os (check_client_timeouts-IsFresh now w)
      (unfold check_client_timeouts in h)

-- In a run of at most 254 connection requests no two active clients share a VPN address.
pub run-UniqueIp : (os : List Op) → connections os ≤ 254 → UniqueIp (run init_client_table os)
unfolding init_client_table
run-UniqueIp os h = (run-IsFresh init_client_table os init-IsFresh (omega arith)).unique_ip

-- Once the pool has been gone through, a valid table that is not full gives a new client 10.8.0.2
-- without looking whether that is taken: beside a client who still holds it there are then two.
pub add_client_reuses :
    (t : ClientTable) (a : SockAddr) (now random : ℕ)
    → IsValid t
    → t.count < max_clients
    → t.next_ip ≡ last_ip + 1
    → find_client_by_addr t a ≡ none
    → find_client_by_vpn_ip t (htonl first_ip) ≢ none
    → ((add_client t a now random).1 ≡ htonl first_ip)
      × (2 ≤ count_if (has_vpn_ip (htonl first_ip)) (add_client t a now random).0.clients)
unfolding find_client_by_addr find_client_by_vpn_ip
add_client_reuses t a now random w room past new taken =
    let (i, e, free) = has_free_slot w room in
    let f = find_slot-get_elem? (λ x. not (is_active x)) t.clients i e free in
    let host : vpn_ip_host t ≡ first_ip = ground arith in
    rw (add_client_new t a now random room new, add_new_client_at t a now random free)
      (
        ap htonl host,
        ground (
          arith,
          count_if-set (has_vpn_ip (htonl first_ip)) t.clients i e (new_entry t a now random) f.0,
          f.1,
          ap htonl host,
          held,
        ),
      )
  where
    held : 0 < count_if (has_vpn_ip (htonl first_ip)) t.clients
    held = elim (Option-cases (find_slot (has_vpn_ip (htonl first_ip)) t.clients)) [
      | inl nobody ↦ absurd (taken nobody)
      | inr ((j, c), holder) ↦
          let g = find_slot-get_elem? (has_vpn_ip (htonl first_ip)) t.clients j c holder in
          count_if-pos (has_vpn_ip (htonl first_ip)) t.clients j c g.0 g.1
    ]
