-- ===== src/Clients/View.antt =====
-- What the client table promises: a partial map from client addresses to sessions.
use mathlib.Core.Option
use cloud_service.Base.{
  ℕ, ◌+◌, ◌≤◌, ◌≡◌, Bool, true, ◌&&◌, Option, none, some, arith, ltb, ◌==◌, if◌then◌else◌,
}
use cloud_service.Slots.{count_if}
use cloud_service.Clients.{
  SockAddr, ClientEntry, ClientTable, client_timeout, has_addr, has_vpn_ip, vpn_ip_host,
  find_client_by_addr, generate_session_id,
}
use cloud_service.Wire.{htonl}

pub record Session : Type 0 where
  pub vpn_ip : ℕ
  pub last_seen : ℕ
  pub session_id : ℕ

abbrev pub session : ℕ × ClientEntry → Session
session (i, e) = record { vpn_ip = e.vpn_ip; last_seen = e.last_seen; session_id = e.session_id }

-- The session of an address, as the table's lookup sees it.
abbrev pub view : ClientTable → SockAddr → Option Session
view t a = Option.map session (find_client_by_addr t a)

abbrev pub same_addr : SockAddr → SockAddr → Bool
same_addr a b = a.sin_addr == b.sin_addr && a.sin_port == b.sin_port

pub same_addr-eq : (a b : SockAddr) → same_addr a b ≡ true → a ≡ b
same_addr-eq a b h = ground arith

-- A known client keeps its session; a new one gets the next address.
abbrev pub granted : ClientTable → ℕ → ℕ → Option Session → Session
granted t now random (some s) = record s { last_seen = now }
granted t now random none = record {
  vpn_ip = htonl (vpn_ip_host t);
  last_seen = now;
  session_id = generate_session_id now random;
}

-- The session that is left when those of one address are taken out.
abbrev pub without_ip : ℕ → Option Session → Option Session
without_ip ip none = none
without_ip ip (some s) = if s.vpn_ip == ip then none else some s

abbrev pub unless_expired : ℕ → Option Session → Option Session
unless_expired now none = none
unless_expired now (some s) = if ltb (s.last_seen + client_timeout) now then none else some s

-- No address, and no VPN address, has two active slots.
abbrev pub UniqueAddr : ClientTable → Type 0
UniqueAddr t = (a : SockAddr) → count_if (has_addr a) t.clients ≤ 1

abbrev pub UniqueIp : ClientTable → Type 0
UniqueIp t = (ip : ℕ) → count_if (has_vpn_ip ip) t.clients ≤ 1
