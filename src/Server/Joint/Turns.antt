-- ===== src/Server/Joint/Turns.antt =====
-- An ordinary round of the event loop of vpn_server.c returns, and keeps the server and its enclave
-- together.
use cloud_service.Base.{ℕ, ◌+◌, ◌≤◌, ◌≡◌, Option, none, some, List, length, arith, leb, if_holds}
use cloud_service.Clients.{SockAddr}
use cloud_service.Clients.Invariant.{check_client_timeouts-IsValid}
use cloud_service.Crypto.{Sodium, AeadLaws, ExchangeLaws}
use cloud_service.Enclave.{Enclave}
use cloud_service.EnclaveClient.Peer.{enclave_exchange}
use cloud_service.Ipc.{ipc_max_data_size}
use cloud_service.Server.{
  Server, Moment, Output, Loop, Activity, select_failed, timed_out, readable, event_loop_round,
  served, serve_udp, serve_tun, check_timeouts, buffer_size,
}
use cloud_service.Server.Joint.Keyed.{check_client_timeouts-Keyed}
use cloud_service.Server.Joint.Packets.{connects, handle_udp_to_tun-Joint, handle_tun_to_udp-Joint}
use cloud_service.Server.Joint.Rounds.{
  Turn, FitsTun, IsOrdinary, asked, asked_by, connects_of, turn_result,
}
use cloud_service.Server.Joint.State.{Joint, Joint-mono}
use cloud_service.Server.Safety.{Safely}
use cloud_service.Wire.{Bytes, Run, fault, done, ◌>>=◌}

-- A round that returns, with the server and the enclave together after it.
abbrev pub LoopSafely : ℕ → Run (Loop (Run Enclave)) → Type 0
LoopSafely n fault = ⊥
LoopSafely n (done l) = Joint n l.server

served-Joint :
    (n : ℕ) (exchange : Run Enclave → Bytes → Option (Run Enclave × Bytes)) (l : Loop (Run Enclave))
    (r : Run (Server (Run Enclave) × List Output))
    → Safely (Joint n) r
    → LoopSafely n (served exchange l r)
served-Joint n exchange l fault h = h
served-Joint n exchange l (done (v, outputs)) h = h

LoopSafely-bind :
    (n m : ℕ) (r : Run (Loop (Run Enclave))) (k : Loop (Run Enclave) → Run (Loop (Run Enclave)))
    → LoopSafely n r
    → ((l : Loop (Run Enclave)) → Joint n l.server → LoopSafely m (k l))
    → LoopSafely m (r >>= k)
LoopSafely-bind n m fault k h next = absurd h
LoopSafely-bind n m (done l) k h next = next l h

module _ {s : Sodium} {public_of : Bytes → Bytes} (aead : AeadLaws s)
    (laws : ExchangeLaws s public_of) (m : Moment) (stale nonce buffer : Bytes)
    (hn : length nonce ≡ 12) (hb : length buffer ≡ ipc_max_data_size) where
  serve_tun-Joint :
      {n : ℕ} (udp : Option (Option (Bytes × SockAddr))) (tun : Option (Option Bytes))
      (l : Loop (Run Enclave))
      → FitsTun (readable udp tun)
      → Joint n l.server
      → LoopSafely n (serve_tun (enclave_exchange s nonce buffer) m l tun)
  serve_tun-Joint udp none l fits j = j
  serve_tun-Joint {n} udp (some packet) l fits j =
      served-Joint n (enclave_exchange s nonce buffer) l _
        (handle_tun_to_udp-Joint aead laws nonce buffer hn hb m packet j (fit packet fits))
    where
      fit :
          (packet : Option Bytes)
          → FitsTun (readable udp (some packet))
          → (bytes : Bytes) → packet ≡ some bytes
          → length bytes ≤ 2004
      fit none h bytes e = absurd (cc e)
      fit (some packet) h bytes e = let same : packet ≡ bytes = cc e in rw (← same) h

  serve_udp-Joint :
      {n : ℕ} (udp : Option (Option (Bytes × SockAddr))) (l : Loop (Run Enclave))
      → length stale ≡ buffer_size
      → Joint n l.server
      → LoopSafely
          (n + connects_of stale udp)
          (serve_udp (enclave_exchange s nonce buffer) m stale l udp)
  serve_udp-Joint none l whole j = Joint-mono (omega arith) j
  serve_udp-Joint {n} (some received) l whole j =
      served-Joint (n + connects stale received) (enclave_exchange s nonce buffer) l _
        (handle_udp_to_tun-Joint aead laws nonce buffer hn hb m stale received j whole)

check_timeouts-Joint :
    {n : ℕ} (exchange : Run Enclave → Bytes → Option (Run Enclave × Bytes)) (l : Loop (Run Enclave))
    (now : ℕ)
    → Joint n l.server
    → Joint n (check_timeouts exchange l now).server
check_timeouts-Joint {n} exchange l now j =
    if_holds {A = Loop (Run Enclave)} (λ l'. Joint n l'.server)
      (leb (l.last_timeout_check + 30) now)
      (record {
        enclave = j.enclave;
        id = j.id;
        linked = j.linked;
        table = check_client_timeouts-IsValid now j.table;
        keys = j.keys;
        running = j.running;
        keyed = λ few. check_client_timeouts-Keyed now (j.keyed few);
      })
      j

-- An ordinary round returns, and keeps the server and its enclave together.
pub turn_result-Joint :
    {s : Sodium} {public_of : Bytes → Bytes} {n : ℕ} (l : Loop (Run Enclave)) (t : Turn)
    → AeadLaws s
    → ExchangeLaws s public_of
    → IsOrdinary t
    → Joint n l.server
    → LoopSafely (n + asked t) (turn_result s l t)
unfolding event_loop_round
turn_result-Joint {s} {n = n} l t aead laws ok j = go t.activity ok.tun
  where
    go :
        (a : Activity)
        → FitsTun a
        → LoopSafely
            (n + asked_by t.stale a)
            (event_loop_round (enclave_exchange s t.nonce t.buffer) t.moment t.stale l a)
    go select_failed fits = Joint-mono (omega arith) j
    go (timed_out now alive) fits =
        Joint-mono (omega arith)
          (check_timeouts-Joint (enclave_exchange s t.nonce t.buffer) l now j)
    go (readable udp tun) fits =
        LoopSafely-bind _ _ (serve_udp (enclave_exchange s t.nonce t.buffer) t.moment t.stale l udp)
          _
          (serve_udp-Joint aead laws t.moment t.stale t.nonce t.buffer ok.nonce_size
            ok.enclave_buffer_size udp l ok.stale_size j)
          (λ l' j'.
            serve_tun-Joint aead laws t.moment t.stale t.nonce t.buffer ok.nonce_size
              ok.enclave_buffer_size udp tun l' fits j')
