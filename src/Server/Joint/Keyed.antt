-- ===== src/Server/Joint/Keyed.antt =====
-- The client table of the server beside the key table of the enclave: VPN/src/server/client_manager.c
-- and VPN/src/enclave/key_manager.c, for the first 254 connection requests.
use cloud_service.Base.{
  ℕ, ◌+◌, ◌<◌, ◌≤◌, ◌≡◌, ◌≢◌, refl, true, false, none, some, inl, inr, arith, Bool-cases,
  Option-cases, All, All-set, All-get_elem?, All-of_get_elem?, set, List, [], ◌∷◌, map, get_elem?,
}
use cloud_service.Clients.{
  SockAddr, ClientEntry, ClientTable, max_clients, first_ip, has_vpn_ip, has_addr, add_client,
  remove_client, is_timed_out, expire, check_client_timeouts, update_client_activity,
}
use cloud_service.Clients.Cases.{expire_slots-map}
use cloud_service.Clients.Invariant.{IsValid}
use cloud_service.Clients.Refine.{
  has_free_slot, add_client_known, add_client_new, add_new_client_at, remove_found, remove_missing,
}
use cloud_service.Clients.Unique.{IsFresh, update-IsFresh, check_client_timeouts-IsFresh}
use cloud_service.Keys.{KeyManager, get_key}
use cloud_service.Slots.{find_slot, find_slot-get_elem?, find_slot-none, find_slot-set_off}

abbrev pub HasKey : KeyManager → ClientEntry → Type 0
HasKey km e = e.active ≡ true → get_key km e.vpn_ip ≢ none

-- After `n` connection requests: no address was handed out twice, no more than `n` keys are stored,
-- and every client with a session has a key.
pub record Keyed (n : ℕ) (t : ClientTable) (km : KeyManager) : Type 0 where
  pub fresh : IsFresh t
  pub next : t.next_ip ≤ first_ip + n
  pub few : km.count ≤ n
  pub keys : All (HasKey km) t.clients

-- Every client with a session, but for those of one VPN address, has a key.
abbrev pub OthersHaveKey : ℕ → KeyManager → ClientEntry → Type 0
OthersHaveKey ip km e = e.vpn_ip ≢ ip → HasKey km e

update-HasKey :
    (km : KeyManager) (es : List ClientEntry) (i : ℕ) (e : ClientEntry) (now : ℕ)
    → get_elem? es i ≡ some e
    → All (HasKey km) es
    → All (HasKey km) (set es i (record e { last_seen = now }))
update-HasKey km es i e now g a =
    All-set (HasKey km) es i (record e { last_seen = now }) (All-get_elem? (HasKey km) es i e g a) a

-- In a table where no entry of the VPN address is active, all have keys if all others have.
none_left :
    (ip : ℕ) (km : KeyManager) (es : List ClientEntry)
    → find_slot (has_vpn_ip ip) es ≡ none
    → All (OthersHaveKey ip km) es
    → All (HasKey km) es
none_left ip km es gone a = All-of_get_elem? (HasKey km) es (λ j e g. λ on.
    All-get_elem? (OthersHaveKey ip km) es j e g a
      (λ same. absurd (ground (arith, find_slot-none (has_vpn_ip ip) es j e gone g))) on)

-- Removing the client of a VPN address leaves only clients with keys, if all others have keys.
pub remove_client-HasKey :
    {t : ClientTable} (ip : ℕ) (km : KeyManager)
    → IsFresh t
    → All (OthersHaveKey ip km) t.clients
    → All (HasKey km) (remove_client t ip).clients
remove_client-HasKey {t} ip km w a = elim (Option-cases (find_slot (has_vpn_ip ip) t.clients)) [
  | inl missing ↦ rw (remove_missing t ip missing) (none_left ip km t.clients missing a)
  | inr ((i, e), here) ↦
      let f = find_slot-get_elem? (has_vpn_ip ip) t.clients i e here in
      rw (remove_found t ip here) (
        none_left ip km (set t.clients i (record e { active = false }))
          (find_slot-set_off (has_vpn_ip ip) t.clients i e (record e { active = false }) f.0 f.1
            refl (w.unique_ip ip))
          (All-set (OthersHaveKey ip km) t.clients i _ (λ other on. absurd (cc on)) a))
]

pub next-remove_client : (t : ClientTable) (ip : ℕ) → (remove_client t ip).next_ip ≡ t.next_ip
unfolding remove_client
next-remove_client t ip = elim (Option-cases (find_slot (has_vpn_ip ip) t.clients)) [
  | inl missing ↦ rw (remove_missing t ip missing) refl
  | inr ((i, e), here) ↦ rw (remove_found t ip here) refl
]

-- After `add_client`, all clients but the one it let in have the keys that they had.
pub add_client-OthersHaveKey :
    {t : ClientTable} (a : SockAddr) (now random : ℕ) (km : KeyManager)
    → IsValid t
    → t.count < max_clients
    → All (HasKey km) t.clients
    → All (OthersHaveKey (add_client t a now random).1 km) (add_client t a now random).0.clients
unfolding update_client_activity
add_client-OthersHaveKey {t} a now random km w room keys =
    elim (Option-cases (find_slot (has_addr a) t.clients)) [
      | inl new ↦
          let (i, e, free) = has_free_slot w room in
          rw (add_client_new t a now random room new, add_new_client_at t a now random free)
            (All-set (OthersHaveKey _ km) t.clients i _ (λ other on. absurd (other refl))
              (weaker t.clients _ keys))
      | inr ((i, e), old) ↦
          let f = find_slot-get_elem? (has_addr a) t.clients i e old in
          rw (add_client_known t a now random room old)
            (weaker _ e.vpn_ip (update-HasKey km t.clients i e now f.0 keys))
    ]
  where
    weaker : (es : List ClientEntry) (ip : ℕ) → All (HasKey km) es → All (OthersHaveKey ip km) es
    weaker [] ip h = tt
    weaker (e ∷ es) ip h = ((λ other. h.0), weaker es ip h.1)

pub next-add_client :
    (t : ClientTable) (a : SockAddr) (now random n : ℕ)
    → IsValid t
    → t.count < max_clients
    → n ≤ 253
    → t.next_ip ≤ first_ip + n
    → (add_client t a now random).0.next_ip ≤ first_ip + (n + 1)
unfolding update_client_activity
next-add_client t a now random n w room small h =
    elim (Option-cases (find_slot (has_addr a) t.clients)) [
      | inl new ↦
          let (i, e, free) = has_free_slot w room in
          rw (add_client_new t a now random room new, add_new_client_at t a now random free)
            (ground arith)
      | inr ((i, e), old) ↦ rw (add_client_known t a now random room old) (omega arith)
    ]

expire-HasKey :
    (now : ℕ) (km : KeyManager) (es : List ClientEntry)
    → All (HasKey km) es
    → All (HasKey km) (map (expire now) es)
expire-HasKey now km [] a = tt
expire-HasKey now km (e ∷ es) a = elim (Bool-cases (is_timed_out now e)) [
  | inl out ↦ rw out ((λ on. absurd (cc on)), expire-HasKey now km es a.1)
  | inr kept ↦ rw kept (a.0, expire-HasKey now km es a.1)
]

-- The timeout check ends sessions only, and leaves every key where it is.
pub check_client_timeouts-Keyed :
    {n : ℕ} {t : ClientTable} {km : KeyManager} (now : ℕ)
    → Keyed n t km
    → Keyed n (check_client_timeouts t now) km
unfolding check_client_timeouts
check_client_timeouts-Keyed {n} {t} {km} now w = record {
  fresh = unfold check_client_timeouts in check_client_timeouts-IsFresh now w.fresh;
  next = w.next;
  few = w.few;
  keys = rw (expire_slots-map now t.clients t.count) (expire-HasKey now km t.clients w.keys);
}

pub update-Keyed :
    {n : ℕ} {t : ClientTable} {km : KeyManager} (i : ℕ) (e : ClientEntry) (now : ℕ)
    → get_elem? t.clients i ≡ some e
    → Keyed n t km
    → Keyed n (record t { clients = set t.clients i (record e { last_seen = now }) }) km
update-Keyed {n} {t} {km} i e now g w = record {
  fresh = update-IsFresh i e now w.fresh g;
  next = w.next;
  few = w.few;
  keys = update-HasKey km t.clients i e now g w.keys;
}

pub Keyed-mono : {n m : ℕ} {t : ClientTable} {km : KeyManager} → n ≤ m → Keyed n t km → Keyed m t km
Keyed-mono le w = record {
  fresh = w.fresh;
  next = omega (arith, w.next);
  few = omega (arith, w.few);
  keys = w.keys;
}
