-- ===== src/Tests/Clients.antt =====
-- The client table's theorems at tables with one or two clients.
use cloud_service.Base.{
  ◌+◌, ◌≤◌, ◌≡◌, refl, sym, ap, arith, List, [], ◌∷◌, some, if◌then◌else◌, replicate,
  length-replicate, All-replicate,
}
use cloud_service.Clients.{
  ClientTable, first_ip, last_ip, zero_entry, init_client_table, add_client, remove_client,
  check_client_timeouts, find_client_by_addr, find_client_by_vpn_ip, has_vpn_ip, is_active,
  generate_session_id, new_entry,
}
use cloud_service.Clients.Alloc.{Op, connects, removes, sweeps, add_client_reuses}
use cloud_service.Clients.Invariant.{IsValid, HasPoolIp, init-IsValid}
use cloud_service.Clients.Refine.{view-add_client, view-remove_client, view-check_client_timeouts}
use cloud_service.Clients.Unique.{
  init-UniqueAddr, add_client-UniqueAddr, add_client-IsFresh, init-IsFresh,
}
use cloud_service.Clients.View.{view, granted, without_ip, unless_expired, same_addr, UniqueAddr}
use cloud_service.Slots.{find_slot, count_if, count_if-replicate}
use cloud_service.Tests.Toy.{alice, bob, ip, with_alice}
use cloud_service.Wire.{htonl}

view-add_client_example :
    (view (add_client init_client_table alice 100 7).0 alice ≡ (
      if same_addr alice alice
      then some (granted init_client_table 100 7 (view init_client_table alice))
      else view init_client_table alice))
    × ((add_client init_client_table alice 100 7).1
        ≡ (granted init_client_table 100 7 (view init_client_table alice)).vpn_ip)
unfolding init_client_table
view-add_client_example =
    view-add_client init_client_table alice alice 100 7 init-IsValid (omega arith)

with_alice-UniqueAddr : UniqueAddr with_alice
with_alice-UniqueAddr = add_client-UniqueAddr init_client_table alice 100 7 init-UniqueAddr

view-remove_client_example :
    view (remove_client with_alice ip) alice ≡ without_ip ip (view with_alice alice)
unfolding init_client_table
view-remove_client_example =
    view-remove_client with_alice ip alice with_alice-UniqueAddr
      (add_client-IsFresh alice 100 7 init-IsFresh (omega arith)).unique_ip

view-check_client_timeouts_example :
    view (check_client_timeouts with_alice 500) alice ≡ unless_expired 500 (view with_alice alice)
view-check_client_timeouts_example =
    view-check_client_timeouts with_alice 500 alice with_alice-UniqueAddr

abbrev calls : List Op
calls = connects alice 100 7 ∷ connects bob 101 8 ∷ removes ip ∷ sweeps 900 ∷ []

-- the pool is used up, and alice still holds its first address
abbrev used_up : ClientTable
used_up = record {
  clients = new_entry init_client_table alice 100 7 ∷ replicate 253 zero_entry;
  count = 1;
  next_ip = last_ip + 1;
}

used_up-IsValid : IsValid used_up
unfolding init_client_table count_if
used_up-IsValid = record {
  capacity = ap (λ n. n + 1) (length-replicate 253 zero_entry);
  counted = ap (λ n. n + 1) (sym (count_if-replicate is_active 253 zero_entry refl));
  next_low = omega arith;
  next_high = omega arith;
  in_pool = (
    λ h. (first_ip, refl, omega arith, omega arith),
    All-replicate HasPoolIp 253 zero_entry (λ h. absurd (cc h)),
  );
}

add_client_reuses_example :
    ((add_client used_up bob 200 9).1 ≡ htonl first_ip)
    × (2 ≤ count_if (has_vpn_ip (htonl first_ip)) (add_client used_up bob 200 9).0.clients)
unfolding find_client_by_addr find_client_by_vpn_ip init_client_table htonl find_slot
    generate_session_id
add_client_reuses_example =
    add_client_reuses used_up bob 200 9 used_up-IsValid (omega arith) refl refl (λ h. absurd (cc h))
