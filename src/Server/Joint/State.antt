-- ===== src/Server/Joint/State.antt =====
-- What holds of the server and its enclave between two rounds of the loop of vpn_server.c.
use cloud_service.Base.{ℕ, ◌≤◌, ◌≡◌, true, List, length, arith}
use cloud_service.Clients.Invariant.{IsValid}
use cloud_service.Crypto.{Sodium, AeadLaws, ExchangeLaws}
use cloud_service.Enclave.{Enclave}
use cloud_service.EnclaveClient.Peer.{Ready, link_to}
use cloud_service.Ipc.{ipc_max_data_size}
use cloud_service.Keys.Invariant
use cloud_service.Server.{Server, Output}
use cloud_service.Server.Joint.Keyed.{Keyed, Keyed-mono}
use cloud_service.Server.Safety.{Safely}
use cloud_service.Wire.{Bytes, Run, fault, done}

-- After `n` connection requests: the server has read all that the enclave sent, the enclave waits for
-- requests, both tables are valid, and up to 254 requests every session has a key.
pub record Joint (n : ℕ) (v : Server (Run Enclave)) : Type 0 where
  pub enclave : Enclave
  pub id : ℕ
  pub linked : v.link ≡ link_to enclave id
  pub table : IsValid v.table
  pub keys : Invariant.IsValid enclave.manager
  pub running : enclave.running ≡ true
  pub keyed : n ≤ 254 → Keyed n v.table enclave.manager

pub Joint-mono : {n m : ℕ} {v : Server (Run Enclave)} → n ≤ m → Joint n v → Joint m v
Joint-mono le j = record {
  enclave = j.enclave;
  id = j.id;
  linked = j.linked;
  table = j.table;
  keys = j.keys;
  running = j.running;
  keyed = λ few. Keyed-mono le (j.keyed (omega arith));
}

pub Safely-mono :
    {n m : ℕ} (r : Run (Server (Run Enclave) × List Output))
    → n ≤ m
    → Safely (Joint n) r
    → Safely (Joint m) r
Safely-mono fault le h = h
Safely-mono (done (v, outputs)) le h = Joint-mono le h

-- An enclave that waits for requests, whatever nonce and buffer its next answer takes.
pub Joint-Ready :
    {s : Sodium} {public_of : Bytes → Bytes} {nonce buffer : Bytes} {n : ℕ}
    {v : Server (Run Enclave)}
    → AeadLaws s
    → ExchangeLaws s public_of
    → length nonce ≡ 12
    → length buffer ≡ ipc_max_data_size
    → (j : Joint n v) → Ready s public_of nonce buffer j.enclave
Joint-Ready aead laws hn hb j = record {
  aead = aead;
  exchange = laws;
  table = j.keys;
  nonce_size = hn;
  buffer_size = hb;
  running = j.running;
}
