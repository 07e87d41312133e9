-- ===== src/Server/Joint/Rounds.antt =====
-- The reachable states of the server with its enclave: from the start of `main` of vpn_server.c, round
-- by round of its event loop, each with whatever it meets.
use cloud_service.Base.{ℕ, ◌+◌, ◌≤◌, ◌≡◌, true, false, Option, none, some, [], length}
use cloud_service.Clients.{SockAddr}
use cloud_service.Crypto.{Sodium}
use cloud_service.Enclave.{Enclave}
use cloud_service.EnclaveClient.Peer.{enclave_exchange}
use cloud_service.Ipc.{ipc_max_data_size}
use cloud_service.Keys.{init_key_manager}
use cloud_service.Server.{
  Server, Moment, Loop, Activity, select_failed, timed_out, readable, event_loop_round, buffer_size,
}
use cloud_service.Server.Joint.Packets.{connects}
use cloud_service.Server.Program.{Running, start_server}
use cloud_service.System.{System, Outcomes}
use cloud_service.Wire.{Bytes, Run, done}

-- One round: the reads of the server, what its buffer held, the nonce that the enclave draws if it is
-- asked to encrypt, what the enclave's buffer held, and what `select` finds.
pub record Turn : Type 0 where
  pub moment : Moment
  pub stale : Bytes
  pub nonce : Bytes
  pub buffer : Bytes
  pub activity : Activity

-- A packet that an interface with an MTU of at most 2004 gives.
abbrev pub FitsTun : Activity → Type 0
FitsTun (readable udp (some (some packet))) = length packet ≤ 2004
FitsTun a = Unit

pub record IsOrdinary (t : Turn) : Type 0 where
  pub stale_size : length t.stale ≡ buffer_size
  pub nonce_size : length t.nonce ≡ 12
  pub enclave_buffer_size : length t.buffer ≡ ipc_max_data_size
  pub tun : FitsTun t.activity

-- how many connection requests the round brings: 0 or 1
abbrev pub connects_of : Bytes → Option (Option (Bytes × SockAddr)) → ℕ
connects_of stale none = 0
connects_of stale (some received) = connects stale received

abbrev pub asked_by : Bytes → Activity → ℕ
asked_by stale select_failed = 0
asked_by stale (timed_out now alive) = 0
asked_by stale (readable udp tun) = connects_of stale udp

abbrev pub asked : Turn → ℕ
asked t = asked_by t.stale t.activity

abbrev pub turn_result : Sodium → Loop (Run Enclave) → Turn → Run (Loop (Run Enclave))
turn_result s l t =
    event_loop_round (enclave_exchange s t.nonce t.buffer) t.moment t.stale l t.activity

-- the enclave as its `main` starts it
abbrev pub new_enclave : Bytes → Bytes → Enclave
new_enclave public_key private_key = record {
  manager = init_key_manager public_key private_key;
  running = true;
}

-- the loop's variables before its first round
abbrev pub first_loop : Server (Run Enclave) → ℕ → Loop (Run Enclave)
first_loop v now = record { server = v; last_timeout_check = now; outputs = []; leaving = false }

-- The states that the loop reaches, with the number of connection requests on the way.
pub data Reach (s : Sodium) : ℕ → Loop (Run Enclave) → Type 0 where
  start :
      (public_key private_key nonce buffer : Bytes) (o : Outcomes) (sys : System) (now : ℕ)
      {sys' : System} {r : Running (Run Enclave)}
      → length public_key ≡ 32
      → length nonce ≡ 12
      → length buffer ≡ ipc_max_data_size
      → start_server
          (enclave_exchange s nonce buffer)
          o
          (done (new_enclave public_key private_key))
          sys
        ≡ (sys', some r)
      → Reach s 0 (first_loop r.server now)
  turn :
      {n : ℕ} {l l' : Loop (Run Enclave)} (t : Turn)
      → Reach s n l
      → l.leaving ≡ false
      → IsOrdinary t
      → turn_result s l t ≡ done l'
      → Reach s (n + asked t) l'
