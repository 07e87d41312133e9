-- ===== src/Clients/Invariant.antt =====
-- The representation invariant of the client table, and its preservation by the operations.
use cloud_service.Base.{
  false, ℕ, ◌+◌, ◌-◌, ◌<◌, ◌≤◌, ◌≡◌, refl, &&-eq-true, ap, suc, Bool-cases, true, some, List, [],
  ◌∷◌, inl, inr, arith, length, set, All, All-set, All-get_elem?, length-set, get_elem?,
  length-replicate, All-replicate, sym,
}
use cloud_service.Slots.{count_if, count_if-replicate, to_count, count_if-set, count_if-pos}
use cloud_service.Clients.{
  SockAddr, zero_entry, ClientEntry, ClientTable, max_clients, first_ip, last_ip, is_active,
  init_client_table, vpn_ip_host, add_client, remove_client, new_entry, check_client_timeouts,
  is_timed_out, expire, expire_slots,
}
use cloud_service.Clients.Cases.{add_client_cases, remove_client_cases}
use cloud_service.Wire.{htonl}

-- An active client has one of the 254 addresses.
abbrev pub HasPoolIp : ClientEntry → Type 0
HasPoolIp e =
    e.active ≡ true → (host : ℕ) × (e.vpn_ip ≡ htonl host) × (first_ip ≤ host) × (host ≤ last_ip)

pub record IsValid (t : ClientTable) : Type 0 where
  pub capacity : length t.clients ≡ max_clients
  pub counted : t.count ≡ count_if is_active t.clients
  pub next_low : first_ip ≤ t.next_ip
  pub next_high : t.next_ip ≤ last_ip + 1
  pub in_pool : All HasPoolIp t.clients

pub init-IsValid : IsValid init_client_table
unfolding init_client_table
init-IsValid = record {
  capacity = length-replicate max_clients zero_entry;
  counted = sym (count_if-replicate is_active max_clients zero_entry refl);
  next_low = omega arith;
  next_high = omega arith;
  in_pool = All-replicate HasPoolIp max_clients zero_entry (λ h. cc);
}

-- One slot is rewritten, and `count` moves as its `active` does.
write-IsValid :
    {t : ClientTable} (i : ℕ) (e v : ClientEntry) (count' next' : ℕ)
    → IsValid t
    → get_elem? t.clients i ≡ some e
    → HasPoolIp v
    → count' + to_count e.active ≡ t.count + to_count v.active
    → first_ip ≤ next'
    → next' ≤ last_ip + 1
    → IsValid (record { clients = set t.clients i v; count = count'; next_ip = next' })
write-IsValid {t} i e v count' next' w g p c lo hi = record {
  capacity = omega (arith, length-set t.clients i v, w.capacity);
  counted = omega (arith, count_if-set is_active t.clients i e v g, w.counted);
  next_low = lo;
  next_high = hi;
  in_pool = All-set HasPoolIp t.clients i v p w.in_pool;
}

-- Where a lookup finds an active entry, `count` is positive, so `count--` does not pass below 0.
pub count-pos :
    {t : ClientTable} (i : ℕ) (e : ClientEntry)
    → IsValid t
    → get_elem? t.clients i ≡ some e
    → e.active ≡ true
    → 0 < t.count
count-pos {t} i e w g a = omega (arith, count_if-pos is_active t.clients i e g a, w.counted)

pub update-IsValid :
    {t : ClientTable} (i : ℕ) (e : ClientEntry) (now : ℕ)
    → IsValid t
    → get_elem? t.clients i ≡ some e
    → IsValid (record t { clients = set t.clients i (record e { last_seen = now }) })
update-IsValid {t} i e now w g =
    write-IsValid i e (record e { last_seen = now }) t.count t.next_ip w g
      (All-get_elem? HasPoolIp t.clients i e g w.in_pool) refl w.next_low w.next_high

vpn_ip_host_bounds :
    {t : ClientTable} → IsValid t → (first_ip ≤ vpn_ip_host t) × (vpn_ip_host t ≤ last_ip)
vpn_ip_host_bounds w = ground arith

-- `add_client` keeps the invariant, whatever branch it takes.
pub add_client-IsValid :
    {t : ClientTable} (addr : SockAddr) (now random : ℕ)
    → IsValid t
    → IsValid (add_client t addr now random).0
add_client-IsValid {t} addr now random w =
    add_client_cases IsValid t addr now random w (λ i e f. update-IsValid i e now w f.0)
      λ new i e f.
        let b = vpn_ip_host_bounds w in
        write-IsValid i e (new_entry t addr now random) (t.count + 1) (vpn_ip_host t + 1) w f.0
          (λ _. (vpn_ip_host t, refl, b.0, b.1)) (ground (arith, f.1)) (omega arith) (omega arith)

pub remove_client-IsValid : {t : ClientTable} (ip : ℕ) → IsValid t → IsValid (remove_client t ip)
remove_client-IsValid {t} ip w = remove_client_cases IsValid t ip w λ i e f.
    let a : e.active ≡ true = (&&-eq-true _ _ f.1).0 in
    write-IsValid i e (record e { active = false }) (t.count - 1) t.next_ip w f.0 (λ h. cc)
      (ground (arith, a, count-pos i e w f.0 a)) w.next_low w.next_high

-- The loop of `check_client_timeouts`, for any `count` that covers the active entries it meets.
module _ (now : ℕ) where
  expire-HasPoolIp : (e : ClientEntry) → HasPoolIp e → HasPoolIp (expire now e)
  expire-HasPoolIp e p = elim (Bool-cases (is_timed_out now e)) [
    | inl out ↦ rw out (λ h. cc)
    | inr kept ↦ rw kept p
  ]

  length-expire_slots :
      (es : List ClientEntry) (count : ℕ) → length (expire_slots now es count).0 ≡ length es
  unfolding expire_slots
  length-expire_slots [] count = refl
  length-expire_slots (e ∷ es) count = ap suc (length-expire_slots es _)

  expire_slots-HasPoolIp :
      (es : List ClientEntry) (count : ℕ)
      → All HasPoolIp es
      → All HasPoolIp (expire_slots now es count).0
  unfolding expire_slots
  expire_slots-HasPoolIp [] count a = tt
  expire_slots-HasPoolIp (e ∷ es) count a =
      (expire-HasPoolIp e a.0, expire_slots-HasPoolIp es _ a.1)

  count_if-expire_slots :
      (es : List ClientEntry) (count more : ℕ)
      → count ≡ more + count_if is_active es
      → (expire_slots now es count).1 ≡ more + count_if is_active (expire_slots now es count).0
  unfolding expire_slots count_if
  count_if-expire_slots [] count more h = h
  count_if-expire_slots (e ∷ es) count more h = ground (
    arith,
    count_if-expire_slots es (count - 1) more,
    count_if-expire_slots es count (more + to_count e.active),
  )

pub check_client_timeouts-IsValid :
    {t : ClientTable} (now : ℕ) → IsValid t → IsValid (check_client_timeouts t now)
unfolding check_client_timeouts
check_client_timeouts-IsValid {t} now w = record {
  capacity = omega (arith, length-expire_slots now t.clients t.count, w.capacity);
  counted = omega (arith, count_if-expire_slots now t.clients t.count 0 (omega (arith, w.counted)));
  next_low = w.next_low;
  next_high = w.next_high;
  in_pool = expire_slots-HasPoolIp now t.clients t.count w.in_pool;
}
