-- ===== src/Clients.antt =====
-- The client table of the server: VPN/src/server/client_manager.c, VPN/include/client_manager.h.
-- `table->clients` is a list of 254 entries; a `client_entry_t *` into it is an index beside the
-- entry found there, and a write through it replaces that entry. `time(NULL)` and `rand()` are
-- arguments. Every function here works in place on one table, so each returns the new table.
pub mod Cases
pub mod Invariant
pub mod View
pub mod Refine
pub mod Unique
pub mod Alloc
pub mod Print
use Prim.Native.Nat.{bit_xor}
use cloud_service.Base.{
  ℕ, ◌+◌, ◌-◌, ◌%◌, ◌^◌, Bool, true, false, not, [], ◌∷◌, ◌&&◌, Option, none, some, List, ltb, leb,
  ◌==◌, if◌then◌else◌, set, map, replicate,
}
use cloud_service.Slots.{find_slot, count_if}
use cloud_service.Wire.{htonl}

-- The fields of `struct sockaddr_in` that the code reads, in network byte order.
pub record SockAddr : Type 0 where
  pub sin_addr : ℕ
  pub sin_port : ℕ

pub record ClientEntry : Type 0 where
  pub vpn_ip : ℕ
  pub real_addr : SockAddr
  pub last_seen : ℕ
  pub session_id : ℕ
  pub active : Bool

pub record ClientTable : Type 0 where
  pub clients : List ClientEntry
  pub count : ℕ
  pub next_ip : ℕ

abbrev pub max_clients : ℕ
max_clients = 254

abbrev pub client_timeout : ℕ
client_timeout = 300

-- 10.8.0.2 and 10.8.0.255, in host byte order
abbrev pub first_ip : ℕ
first_ip = 0x0a080002

abbrev pub last_ip : ℕ
last_ip = 0x0a0800ff

-- an entry after `memset(table, 0, sizeof(client_table_t))`
abbrev pub zero_entry : ClientEntry
zero_entry = record {
  vpn_ip = 0;
  real_addr = record { sin_addr = 0; sin_port = 0 };
  last_seen = 0;
  session_id = 0;
  active = false;
}

unfoldable pub init_client_table : ClientTable
init_client_table = record {
  clients = replicate max_clients zero_entry;
  count = 0;
  next_ip = first_ip;
}

unfoldable pub generate_session_id : ℕ → ℕ → ℕ
generate_session_id now random = bit_xor (now % 2 ^ 32) (random % 2 ^ 32)

abbrev pub has_vpn_ip : ℕ → ClientEntry → Bool
has_vpn_ip ip e = e.active && e.vpn_ip == ip

abbrev pub has_addr : SockAddr → ClientEntry → Bool
has_addr a e =
    e.active && (e.real_addr.sin_addr == a.sin_addr && e.real_addr.sin_port == a.sin_port)

abbrev pub is_active : ClientEntry → Bool
is_active e = e.active

unfoldable pub find_client_by_vpn_ip : ClientTable → ℕ → Option (ℕ × ClientEntry)
find_client_by_vpn_ip t ip = find_slot (has_vpn_ip ip) t.clients

unfoldable pub find_client_by_addr : ClientTable → SockAddr → Option (ℕ × ClientEntry)
find_client_by_addr t a = find_slot (has_addr a) t.clients

-- `client->last_seen = time(NULL)` at the entry that a lookup returned
unfoldable pub update_client_activity : ClientTable → ℕ × ClientEntry → ℕ → ClientTable
update_client_activity t (i, e) now = record t {
  clients = set t.clients i (record e { last_seen = now });
}

-- the address that the next new client gets, in host byte order: past the end it starts again
abbrev pub vpn_ip_host : ClientTable → ℕ
vpn_ip_host t = if ltb last_ip t.next_ip then first_ip else t.next_ip

abbrev pub new_entry : ClientTable → SockAddr → ℕ → ℕ → ClientEntry
new_entry t addr now random = record {
  vpn_ip = htonl (vpn_ip_host t);
  real_addr = addr;
  last_seen = now;
  session_id = generate_session_id now random;
  active = true;
}

-- from `int index = -1` on: the first free slot takes the client
unfoldable pub add_new_client : ClientTable → SockAddr → ℕ → ℕ → ClientTable × ℕ
add_new_client t addr now random = elim (find_slot (λ e. not (is_active e)) t.clients) [
  | none ↦ (t, 0)
  | some (i, _) ↦ (
    record {
      clients = set t.clients i (new_entry t addr now random);
      count = t.count + 1;
      next_ip = vpn_ip_host t + 1;
    },
    htonl (vpn_ip_host t),
  )
]

-- The second part of the result is the returned address; 0 is failure.
unfoldable pub add_client : ClientTable → SockAddr → ℕ → ℕ → ClientTable × ℕ
unfolding find_client_by_addr update_client_activity
add_client t addr now random =
    if leb max_clients t.count then (t, 0) else elim (find_client_by_addr t addr) [
      | some (i, e) ↦ (update_client_activity t (i, e) now, e.vpn_ip)
      | none ↦ add_new_client t addr now random
    ]

-- `count--` runs only where a client is active (see `Invariant.count-pos`).
unfoldable pub remove_client : ClientTable → ℕ → ClientTable
unfolding find_client_by_vpn_ip
remove_client t ip = elim (find_client_by_vpn_ip t ip) [
  | none ↦ t
  | some (i, e) ↦ record t {
    clients = set t.clients i (record e { active = false });
    count = t.count - 1;
  }
]

-- `now - last_seen > CLIENT_TIMEOUT`, on signed `time_t`: a clock set back makes no timeout.
abbrev pub is_timed_out : ℕ → ClientEntry → Bool
is_timed_out now e = e.active && ltb (e.last_seen + client_timeout) now

abbrev pub expire : ℕ → ClientEntry → ClientEntry
expire now e = if is_timed_out now e then record e { active = false } else e

-- the loop over the slots, with the `count` that it decrements
unfoldable pub expire_slots : ℕ → List ClientEntry → ℕ → List ClientEntry × ℕ
expire_slots now [] count = ([], count)
expire_slots now (e ∷ es) count =
    let (rest, left) = expire_slots now es (if is_timed_out now e then count - 1 else count) in
    (expire now e ∷ rest, left)

unfoldable pub check_client_timeouts : ClientTable → ℕ → ClientTable
unfolding expire_slots
check_client_timeouts t now =
    let (slots, left) = expire_slots now t.clients t.count in
    record t { clients = slots; count = left }
