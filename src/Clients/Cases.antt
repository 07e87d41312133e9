-- ===== src/Clients/Cases.antt =====
-- The branches of the table's operations, as rules for proving something of the table they leave.
use cloud_service.Base.{
  ℕ, ◌+◌, ◌-◌, ◌≡◌, refl, true, false, not, none, some, inl, inr, Bool-cases, Option-cases, leb,
  List, [], ◌∷◌, map, set, get_elem?, ap, ◌<◌, length, not-eq-true,
}
use cloud_service.Slots.{find_slot, find_slot-get_elem?}
use cloud_service.Clients.{
  SockAddr, ClientEntry, ClientTable, max_clients, is_active, has_addr, has_vpn_ip, new_entry,
  vpn_ip_host, add_new_client, add_client, remove_client, expire, expire_slots,
}

add_new_client_cases {ℓ} :
    (P : ClientTable → Type ℓ) (t : ClientTable) (a : SockAddr) (now random : ℕ)
    → P t
    → ((i : ℕ) (e : ClientEntry)
        → (get_elem? t.clients i ≡ some e) × (e.active ≡ false) × (i < length t.clients)
        → P (record {
          clients = set t.clients i (new_entry t a now random);
          count = t.count + 1;
          next_ip = vpn_ip_host t + 1;
        }))
    → P (add_new_client t a now random).0
unfolding add_new_client
add_new_client_cases P t a now random full placed =
    elim (Option-cases (find_slot (λ e. not (is_active e)) t.clients)) [
      | inl none_free ↦ rw (none_free, add_new_client) full
      | inr ((i, e), free) ↦
          let f = find_slot-get_elem? (λ e. not (is_active e)) t.clients i e free in
          rw (free, add_new_client) (placed i e (f.0, not-eq-true e.active f.1, f.2))
    ]

pub add_client_cases {ℓ} :
    (P : ClientTable → Type ℓ) (t : ClientTable) (a : SockAddr) (now random : ℕ)
    → P t
    → ((i : ℕ) (e : ClientEntry)
        → (get_elem? t.clients i ≡ some e) × (has_addr a e ≡ true) × (i < length t.clients)
        → P (record t { clients = set t.clients i (record e { last_seen = now }) }))
    → (find_slot (has_addr a) t.clients ≡ none
        → (i : ℕ) (e : ClientEntry)
        → (get_elem? t.clients i ≡ some e) × (e.active ≡ false) × (i < length t.clients)
        → P (record {
          clients = set t.clients i (new_entry t a now random);
          count = t.count + 1;
          next_ip = vpn_ip_host t + 1;
        }))
    → P (add_client t a now random).0
unfolding add_client
add_client_cases P t a now random refused known placed =
    elim (Bool-cases (leb max_clients t.count)) [
      | inl full ↦ rw full refused
      | inr room ↦ elim (Option-cases (find_slot (has_addr a) t.clients)) [
        | inl new ↦
            rw (room, new, add_client) (add_new_client_cases P t a now random refused (placed new))
        | inr ((i, e), old) ↦
            rw (room, old, add_client)
              (known i e (find_slot-get_elem? (has_addr a) t.clients i e old))
      ]
    ]

pub remove_client_cases {ℓ} :
    (P : ClientTable → Type ℓ) (t : ClientTable) (ip : ℕ)
    → P t
    → ((i : ℕ) (e : ClientEntry)
        → (get_elem? t.clients i ≡ some e) × (has_vpn_ip ip e ≡ true) × (i < length t.clients)
        → P (record t {
          clients = set t.clients i (record e { active = false });
          count = t.count - 1;
        }))
    → P (remove_client t ip)
unfolding remove_client
remove_client_cases P t ip missing here =
    elim (Option-cases (find_slot (has_vpn_ip ip) t.clients)) [
      | inl absent ↦ rw (absent, remove_client) missing
      | inr ((i, e), found) ↦
          rw (found, remove_client)
            (here i e (find_slot-get_elem? (has_vpn_ip ip) t.clients i e found))
    ]

-- The timeout loop rewrites each slot by `expire`.
pub expire_slots-map :
    (now : ℕ) (es : List ClientEntry) (count : ℕ)
    → (expire_slots now es count).0 ≡ map (expire now) es
unfolding expire_slots
expire_slots-map now [] count = refl
expire_slots-map now (e ∷ es) count = ap (λ l. expire now e ∷ l) (expire_slots-map now es _)
