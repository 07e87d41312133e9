-- ===== src/Clients/Unique.antt =====
-- Uniqueness of the addresses and of the VPN addresses in the client table.
use cloud_service.Base.{
  false, ℕ, ◌+◌, ◌<◌, ◌≤◌, ◌≡◌, ◌⊎◌, refl, Bool, true, some, inl, inr, arith, ◌==◌, Bool-cases, set,
  sym, ◌∙◌, List, [], ◌∷◌, map, get_elem?, All, All-set, All-get_elem?, All-replicate, &&-eq-true,
  ==_iff,
}
use cloud_service.Slots.{
  count_if, count_if-set, count_if-map-le, find_slot-of_All, count_zero-of_find_slot,
  count_if-replicate,
}
use cloud_service.Clients.{
  SockAddr, ClientEntry, ClientTable, max_clients, first_ip, last_ip, zero_entry, has_addr,
  has_vpn_ip, new_entry, vpn_ip_host, add_client, remove_client, is_timed_out, expire,
  check_client_timeouts, init_client_table,
}
use cloud_service.Clients.Cases.{add_client_cases, remove_client_cases, expire_slots-map}
use cloud_service.Clients.View.{UniqueAddr, UniqueIp, same_addr-eq}
use cloud_service.Wire.{htonl, htonl-injective}

-- Every active client's address was handed out before `next_ip`.
abbrev pub HandedOut : ℕ → ClientEntry → Type 0
HandedOut next e =
    e.active ≡ true → (host : ℕ) × (e.vpn_ip ≡ htonl host) × (first_ip ≤ host) × (host < next)

-- A write over an entry that counts at least as much.
write-count :
    (q : ClientEntry → Bool) (es : List ClientEntry) (i : ℕ) (e v : ClientEntry)
    → get_elem? es i ≡ some e
    → count_if q es ≤ 1
    → (q v ≡ true → (q e ≡ true) ⊎ (count_if q es ≡ 0))
    → count_if q (set es i v) ≤ 1
write-count q es i e v g u ok = elim (Bool-cases (q v)) [
  | inl hit ↦ ground (arith, count_if-set q es i e v g, ok hit)
  | inr miss ↦ ground (arith, count_if-set q es i e v g)
]

pub add_client-UniqueAddr :
    (t : ClientTable) (a : SockAddr) (now random : ℕ)
    → UniqueAddr t
    → UniqueAddr (add_client t a now random).0
add_client-UniqueAddr t a now random u =
    add_client_cases UniqueAddr t a now random u
      (λ i e f b. write-count (has_addr b) t.clients i e _ f.0 (u b) (λ h. inl (cc h)))
      λ new i e f b.
        write-count (has_addr b) t.clients i e (new_entry t a now random) f.0 (u b)
          λ h. inr (rw (← same_addr-eq a b h) (count_zero-of_find_slot (has_addr a) t.clients new))

pub remove_client-UniqueAddr :
    (t : ClientTable) (ip : ℕ) → UniqueAddr t → UniqueAddr (remove_client t ip)
remove_client-UniqueAddr t ip u =
    remove_client_cases UniqueAddr t ip u
      λ i e f b. write-count (has_addr b) t.clients i e _ f.0 (u b) (λ h. absurd (cc h))

expire-keeps :
    (q : ClientEntry → Bool) (now : ℕ)
    → ((e : ClientEntry) → q (record e { active = false }) ≡ false)
    → (e : ClientEntry) → q e ≡ false
    → q (expire now e) ≡ false
expire-keeps q now off e miss = elim (Bool-cases (is_timed_out now e)) [
  | inl out ↦ rw out (off e)
  | inr kept ↦ rw kept miss
]

timeouts-count :
    (q : ClientEntry → Bool) (t : ClientTable) (now : ℕ)
    → ((e : ClientEntry) → q (record e { active = false }) ≡ false)
    → count_if q (check_client_timeouts t now).clients ≤ count_if q t.clients
unfolding check_client_timeouts
timeouts-count q t now off =
    rw (expire_slots-map now t.clients t.count)
      (count_if-map-le q (expire now) (expire-keeps q now off) t.clients)

pub check_client_timeouts-UniqueAddr :
    (t : ClientTable) (now : ℕ) → UniqueAddr t → UniqueAddr (check_client_timeouts t now)
check_client_timeouts-UniqueAddr t now u b =
    omega (arith, timeouts-count (has_addr b) t now (λ e. refl), u b)

-- While the pool lasts: addresses are handed out once each, in order.
pub record IsFresh (t : ClientTable) : Type 0 where
  pub low : first_ip ≤ t.next_ip
  pub handed_out : All (HandedOut t.next_ip) t.clients
  pub unique_ip : UniqueIp t

HandedOut-mono :
    (n m : ℕ) → n ≤ m → (es : List ClientEntry) → All (HandedOut n) es → All (HandedOut m) es
HandedOut-mono n m h [] a = tt
HandedOut-mono n m h (e ∷ es) a = (
  λ on. let (host, eq, lo, hi) = a.0 on in (host, eq, lo, omega arith),
  HandedOut-mono n m h es a.1,
)

-- The next address is not yet in use.
HandedOut-misses :
    (next : ℕ)
    → next ≤ last_ip + 1
    → (e : ClientEntry) → HandedOut next e
    → has_vpn_ip (htonl next) e ≡ false
HandedOut-misses next small e h = elim (Bool-cases (has_vpn_ip (htonl next) e)) [
  | inl hit ↦
      let (on, same) = &&-eq-true e.active (e.vpn_ip == htonl next) hit in
      let (host, eq, lo, hi) = h on in
      absurd (
        omega (
          arith,
          htonl-injective host next (omega arith) (omega arith)
              (sym eq ∙ (==_iff e.vpn_ip (htonl next)).0 same),
        ))
  | inr miss ↦ miss
]

vpn_ip_host-next : (t : ClientTable) → t.next_ip ≤ last_ip → vpn_ip_host t ≡ t.next_ip
vpn_ip_host-next t h = ground arith

add_new-IsFresh :
    {t : ClientTable} (a : SockAddr) (now random i : ℕ) (e : ClientEntry) (count' : ℕ)
    → IsFresh t
    → t.next_ip ≤ last_ip
    → get_elem? t.clients i ≡ some e
    → IsFresh (record {
      clients = set t.clients i (new_entry t a now random);
      count = count';
      next_ip = vpn_ip_host t + 1;
    })
add_new-IsFresh {t} a now random i e count' w small g = rw (vpn_ip_host-next t small) (record {
  low = omega (arith, w.low);
  handed_out =
      All-set (HandedOut (t.next_ip + 1)) t.clients i _ (λ _. (t.next_ip, refl, w.low, omega arith))
        (HandedOut-mono t.next_ip (t.next_ip + 1) (omega arith) t.clients w.handed_out);
  unique_ip = λ ip. write-count (has_vpn_ip ip) t.clients i e _ g (w.unique_ip ip) λ h.
      let eq : htonl t.next_ip ≡ ip = (==_iff (htonl t.next_ip) ip).0 h in
      inr (
        rw (← eq) (
          count_zero-of_find_slot (has_vpn_ip (htonl t.next_ip)) t.clients (
            find_slot-of_All (HandedOut t.next_ip) _ (HandedOut-misses t.next_ip (omega arith))
              t.clients w.handed_out)));
})

pub update-IsFresh :
    {t : ClientTable} (i : ℕ) (e : ClientEntry) (now : ℕ)
    → IsFresh t
    → get_elem? t.clients i ≡ some e
    → IsFresh (record t { clients = set t.clients i (record e { last_seen = now }) })
update-IsFresh {t} i e now w g = record {
  low = w.low;
  handed_out =
      All-set (HandedOut t.next_ip) t.clients i _
        (All-get_elem? (HandedOut t.next_ip) t.clients i e g w.handed_out) w.handed_out;
  unique_ip = λ ip. write-count (has_vpn_ip ip) t.clients i e _ g (w.unique_ip ip) (λ h. inl h);
}

-- A new client gets an address that nobody holds, as long as the pool has not been gone through.
pub add_client-IsFresh :
    {t : ClientTable} (a : SockAddr) (now random : ℕ)
    → IsFresh t
    → t.next_ip ≤ last_ip
    → IsFresh (add_client t a now random).0
add_client-IsFresh {t} a now random w small =
    add_client_cases IsFresh t a now random w (λ i e f. update-IsFresh i e now w f.0)
      λ new i e f. add_new-IsFresh a now random i e (t.count + 1) w small f.0

pub remove_client-IsFresh : {t : ClientTable} (ip : ℕ) → IsFresh t → IsFresh (remove_client t ip)
remove_client-IsFresh {t} ip w = remove_client_cases IsFresh t ip w λ i e f. record {
  low = w.low;
  handed_out = All-set (HandedOut t.next_ip) t.clients i _ (λ on. absurd (cc on)) w.handed_out;
  unique_ip =
      λ k. write-count (has_vpn_ip k) t.clients i e _ f.0 (w.unique_ip k) (λ h. absurd (cc h));
}

expire-HandedOut :
    (now n : ℕ) (es : List ClientEntry)
    → All (HandedOut n) es
    → All (HandedOut n) (map (expire now) es)
expire-HandedOut now n [] a = tt
expire-HandedOut now n (e ∷ es) a = elim (Bool-cases (is_timed_out now e)) [
  | inl out ↦ rw out ((λ on. absurd (cc on)), expire-HandedOut now n es a.1)
  | inr kept ↦ rw kept (a.0, expire-HandedOut now n es a.1)
]

pub check_client_timeouts-IsFresh :
    {t : ClientTable} (now : ℕ) → IsFresh t → IsFresh (check_client_timeouts t now)
unfolding check_client_timeouts
check_client_timeouts-IsFresh {t} now w = record {
  low = w.low;
  handed_out =
      rw (expire_slots-map now t.clients t.count)
        (expire-HandedOut now t.next_ip t.clients w.handed_out);
  unique_ip = λ ip. omega (arith, timeouts-count (has_vpn_ip ip) t now (λ e. refl), w.unique_ip ip);
}

pub init-IsFresh : IsFresh init_client_table
unfolding init_client_table
init-IsFresh = record {
  low = omega arith;
  handed_out = All-replicate (HandedOut first_ip) max_clients zero_entry (λ on. absurd (cc on));
  unique_ip = λ ip. omega (arith, count_if-replicate (has_vpn_ip ip) max_clients zero_entry refl);
}

pub init-UniqueAddr : UniqueAddr init_client_table
unfolding init_client_table
init-UniqueAddr a = omega (arith, count_if-replicate (has_addr a) max_clients zero_entry refl)
