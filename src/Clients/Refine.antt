-- ===== src/Clients/Refine.antt =====
-- The table's operations against the partial map of View.
use mathlib.Core.Option
use cloud_service.Base.{
  ℕ, ◌+◌, ◌-◌, ◌<◌, ◌≤◌, ◌≡◌, refl, ap, true, false, not, none, some, inl, inr, arith, leb,
  if◌then◌else◌, Bool-cases, Option-cases, set, sym, ◌∙◌, get_elem?, length,
}
use cloud_service.Slots.{
  find_slot, find_slot-get_elem?, find_slot-set_self, find_slot-set_other, find_slot-set_hit,
  find_slot-set_off, find_slot_unique, find_slot-none, find_slot-none-count_if, find_slot-map_off,
  unless_out, count_if,
}
use cloud_service.Clients.{
  SockAddr, ClientEntry, ClientTable, max_clients, is_active, has_addr, has_vpn_ip, new_entry,
  vpn_ip_host, find_client_by_addr, update_client_activity, add_new_client, add_client,
  remove_client, is_timed_out, expire, check_client_timeouts,
}
use cloud_service.Wire.{htonl}
use cloud_service.Clients.Cases.{expire_slots-map}
use cloud_service.Clients.Invariant.{IsValid}
use cloud_service.Clients.View.{
  session, view, same_addr, same_addr-eq, granted, without_ip, unless_expired, UniqueAddr, UniqueIp,
}

-- A valid table below its capacity has a free slot, so the search for one does not fail.
pub has_free_slot :
    {t : ClientTable}
    → IsValid t
    → t.count < max_clients
    → (i : ℕ) × (e : ClientEntry) × (find_slot (λ x. not (is_active x)) t.clients ≡ some (i, e))
has_free_slot {t} w room = elim (Option-cases (find_slot (λ x. not (is_active x)) t.clients)) [
  | inl full ↦
      absurd
        (omega (arith, find_slot-none-count_if is_active t.clients full, w.counted, w.capacity))
  | inr ((i, e), free) ↦ (i, e, free)
]

view_found :
    (t : ClientTable) (a : SockAddr) {i : ℕ} {e : ClientEntry}
    → find_slot (has_addr a) t.clients ≡ some (i, e)
    → view t a ≡ some (session (i, e))
unfolding find_client_by_addr
view_found t a h = ap (Option.map session) h

view_missing :
    (t : ClientTable) (a : SockAddr) → find_slot (has_addr a) t.clients ≡ none → view t a ≡ none
unfolding find_client_by_addr
view_missing t a h = ap (Option.map session) h

-- Slot `i` is written with an entry of address `a` that the search for `a` then finds, and no other
-- search sees the write.
view-write :
    (t : ClientTable) (a b : SockAddr) (i : ℕ) (v : ClientEntry) (count' next' : ℕ)
    → find_slot (has_addr a) (set t.clients i v) ≡ some (i, v)
    → (same_addr a b ≡ false
        → find_slot (has_addr b) (set t.clients i v) ≡ find_slot (has_addr b) t.clients)
    → view (record { clients = set t.clients i v; count = count'; next_ip = next' }) b
      ≡ (if same_addr a b then some (session (i, v)) else view t b)
unfolding find_client_by_addr
view-write t a b i v count' next' hit other = elim (Bool-cases (same_addr a b)) [
  | inl same ↦ rw (same, ← same_addr-eq a b same, hit) refl
  | inr differ ↦ rw (differ, other differ) refl
]

add_known :
    (t : ClientTable) (a b : SockAddr) (now random i : ℕ) (e : ClientEntry)
    → find_slot (has_addr a) t.clients ≡ some (i, e)
    → view (update_client_activity t (i, e) now) b
      ≡ (if same_addr a b then some (granted t now random (view t a)) else view t b)
unfolding update_client_activity
add_known t a b now random i e old =
    let f = find_slot-get_elem? (has_addr a) t.clients i e old in
    rw (view_found t a old) (
      view-write t a b i (record e { last_seen = now }) t.count t.next_ip
        (find_slot-set_hit (has_addr a) t.clients i e _ old f.1)
        (λ differ.
          find_slot-set_other (has_addr b) t.clients i e _ f.0 (ground (arith, f.1))
            (ground (arith, f.1))))

add_unknown :
    (t : ClientTable) (a b : SockAddr) (now random i : ℕ) (e : ClientEntry)
    → find_slot (has_addr a) t.clients ≡ none
    → find_slot (λ x. not (is_active x)) t.clients ≡ some (i, e)
    → view (add_new_client t a now random).0 b
      ≡ (if same_addr a b then some (granted t now random (view t a)) else view t b)
unfolding add_new_client
add_unknown t a b now random i e new free =
    let f = find_slot-get_elem? (λ x. not (is_active x)) t.clients i e free in
    rw (view_missing t a new, free, add_new_client)
      (view-write t a b i (new_entry t a now random) (t.count + 1) (vpn_ip_host t + 1)
        (find_slot-set_self (has_addr a) t.clients i _ new (ground arith) f.2)
        (λ differ.
          find_slot-set_other (has_addr b) t.clients i e _ f.0 (ground (arith, f.1))
            (ground arith)))

module _ (t : ClientTable) (a : SockAddr) (now random : ℕ) where
  pub add_client_known :
      {i : ℕ} {e : ClientEntry}
      → t.count < max_clients
      → find_slot (has_addr a) t.clients ≡ some (i, e)
      → add_client t a now random ≡ (update_client_activity t (i, e) now, e.vpn_ip)
  unfolding add_client
  add_client_known room old =
      let below : leb max_clients t.count ≡ false = ground arith in rw (below, old, add_client) refl

  pub add_client_new :
      t.count < max_clients
      → find_slot (has_addr a) t.clients ≡ none
      → add_client t a now random ≡ add_new_client t a now random
  unfolding add_client
  add_client_new room new =
      let below : leb max_clients t.count ≡ false = ground arith in rw (below, new, add_client) refl

  pub add_new_client_at :
      {i : ℕ} {e : ClientEntry}
      → find_slot (λ x. not (is_active x)) t.clients ≡ some (i, e)
      → add_new_client t a now random ≡ (
        record {
          clients = set t.clients i (new_entry t a now random);
          count = t.count + 1;
          next_ip = vpn_ip_host t + 1;
        },
        htonl (vpn_ip_host t),
      )
  unfolding add_new_client
  add_new_client_at free = rw (free, add_new_client) refl

-- Below its capacity a valid table always admits the client: its own session is kept, with the new
-- time, or made with the next address, and is what the caller is told; no other session changes.
pub view-add_client :
    (t : ClientTable) (a b : SockAddr) (now random : ℕ)
    → IsValid t
    → t.count < max_clients
    → (view (add_client t a now random).0 b
        ≡ (if same_addr a b then some (granted t now random (view t a)) else view t b))
      × ((add_client t a now random).1 ≡ (granted t now random (view t a)).vpn_ip)
view-add_client t a b now random w room = elim (Option-cases (find_slot (has_addr a) t.clients)) [
  | inl new ↦
      let (i, e, free) = has_free_slot w room in
      rw (add_client_new t a now random room new) (
        add_unknown t a b now random i e new free,
        rw (view_missing t a new) (ap (λ r. r.1) (add_new_client_at t a now random free)),
      )
  | inr ((i, e), old) ↦
      rw (add_client_known t a now random room old)
        (add_known t a b now random i e old, rw (view_found t a old) refl)
]

-- A full table admits nobody, not even a client that it already serves, and stays as it is.
pub add_client_full :
    (t : ClientTable) (a : SockAddr) (now random : ℕ)
    → max_clients ≤ t.count
    → add_client t a now random ≡ (t, 0)
unfolding add_client
add_client_full t a now random full = ground arith

-- A session whose slot does not hold the VPN address stays.
without_ip_kept :
    (t : ClientTable) (ip : ℕ) (b : SockAddr)
    → ((j : ℕ) (e : ClientEntry)
        → find_slot (has_addr b) t.clients ≡ some (j, e)
        → has_vpn_ip ip e ≡ false)
    → without_ip ip (view t b) ≡ view t b
without_ip_kept t ip b keep = elim (Option-cases (find_slot (has_addr b) t.clients)) [
  | inl unknown ↦ rw (view_missing t b unknown) refl
  | inr ((j, e), known) ↦
      rw (view_found t b known)
        (ground (arith, keep j e known, (find_slot-get_elem? (has_addr b) t.clients j e known).1))
]

pub remove_found :
    (t : ClientTable) (ip : ℕ) {i : ℕ} {e : ClientEntry}
    → find_slot (has_vpn_ip ip) t.clients ≡ some (i, e)
    → remove_client t ip
      ≡ record t { clients = set t.clients i (record e { active = false }); count = t.count - 1 }
unfolding remove_client
remove_found t ip here = rw (here, remove_client) refl

pub remove_missing :
    (t : ClientTable) (ip : ℕ) → find_slot (has_vpn_ip ip) t.clients ≡ none → remove_client t ip ≡ t
unfolding remove_client
remove_missing t ip missing = rw (missing, remove_client) refl

-- The slot of an address that the slot of the VPN address does not have holds another VPN address.
other_slot :
    (t : ClientTable) (ip : ℕ) (b : SockAddr) (i j : ℕ) (e e' : ClientEntry)
    → count_if (has_vpn_ip ip) t.clients ≤ 1
    → find_slot (has_vpn_ip ip) t.clients ≡ some (i, e)
    → has_addr b e ≡ false
    → (get_elem? t.clients j ≡ some e') × (has_addr b e' ≡ true) × (j < length t.clients)
    → has_vpn_ip ip e' ≡ false
other_slot t ip b i j e e' u here other g = elim (Bool-cases (has_vpn_ip ip e')) [
  | inl both ↦
      let eq : e' ≡ e = cc (find_slot_unique (has_vpn_ip ip) t.clients j e' g.0 both u, here) in
      absurd (cc (ap (has_addr b) eq, g.1, other))
  | inr fine ↦ fine
]

-- In a table with unique addresses and VPN addresses, removing a VPN address ends the session that
-- holds it, and no other.
pub view-remove_client :
    (t : ClientTable) (ip : ℕ) (b : SockAddr)
    → UniqueAddr t
    → UniqueIp t
    → view (remove_client t ip) b ≡ without_ip ip (view t b)
unfolding find_client_by_addr
view-remove_client t ip b ua ui = elim (Option-cases (find_slot (has_vpn_ip ip) t.clients)) [
  | inl missing ↦ rw (remove_missing t ip missing) (
      sym (
        without_ip_kept t ip b λ j e known.
          find_slot-none (has_vpn_ip ip) t.clients j e missing
            (find_slot-get_elem? (has_addr b) t.clients j e known).0))
  | inr ((i, e), here) ↦
      let f = find_slot-get_elem? (has_vpn_ip ip) t.clients i e here in
      rw (remove_found t ip here) (elim (Bool-cases (has_addr b e)) [
        | inl mine ↦
            rw
              (
                find_slot-set_off (has_addr b) t.clients i e (record e { active = false }) f.0 mine
                    refl (ua b),
                find_slot_unique (has_addr b) t.clients i e f.0 mine (ua b),
              )
              (ground (arith, f.1))
        | inr other ↦
            rw
              (find_slot-set_other (has_addr b) t.clients i e (record e { active = false }) f.0
                other refl)
              (sym (
                without_ip_kept t ip b λ j e' known.
                  other_slot t ip b i j e e' (ui ip) here other
                    (find_slot-get_elem? (has_addr b) t.clients j e' known)))
      ])
]

has_addr-expire :
    (now : ℕ) (b : SockAddr) (e : ClientEntry)
    → is_timed_out now e ≡ true
    → has_addr b (expire now e) ≡ false
has_addr-expire now b e out = rw out refl

unless_out-unless_expired :
    (t : ClientTable) (now : ℕ) (b : SockAddr)
    → Option.map session (unless_out (is_timed_out now) (find_slot (has_addr b) t.clients))
      ≡ unless_expired now (view t b)
unless_out-unless_expired t now b = elim (Option-cases (find_slot (has_addr b) t.clients)) [
  | inl unknown ↦ rw (view_missing t b unknown, unknown) refl
  | inr ((i, e), known) ↦
      rw (view_found t b known, known)
        (ground (arith, (find_slot-get_elem? (has_addr b) t.clients i e known).1))
]

-- In a table with unique addresses, the timeout check ends exactly the sessions that were silent
-- for more than 300 seconds.
pub view-check_client_timeouts :
    (t : ClientTable) (now : ℕ) (b : SockAddr)
    → UniqueAddr t
    → view (check_client_timeouts t now) b ≡ unless_expired now (view t b)
unfolding check_client_timeouts find_client_by_addr
view-check_client_timeouts t now b ua = rw (expire_slots-map now t.clients t.count) (
    ap (Option.map session) (
      find_slot-map_off (has_addr b) (is_timed_out now) (expire now) (has_addr-expire now b)
        (λ e kept. rw kept refl) t.clients (ua b))
    ∙ unless_out-unless_expired t now b)
