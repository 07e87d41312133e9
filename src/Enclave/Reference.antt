-- ===== src/Enclave/Reference.antt =====
-- What a request to the enclave means, with no buffers and no lengths: the next state, and the data of
-- the response (`none` is a response of status -1 with no data).
use mathlib.Core.Option
use cloud_service.Base.{
  ℕ, false, Option, none, some, [], ◌++◌, ◌==◌, ltb, length, if◌then◌else◌, take, drop,
}
use cloud_service.Crypto.{Sodium}
use cloud_service.Enclave.{Enclave}
use cloud_service.Ipc.{
  IpcRequest, IpcResponse, Command, ipc_command, init_ipc_response, status_ok, status_failed,
}
use cloud_service.Keys.{
  KeyManager, add_key, get_key, remove_key, get_server_public_key, perform_handshake,
}
use cloud_service.Wire.{Bytes}

module _ (s : Sodium) where
  -- nonce, ciphertext and tag
  unfoldable pub seal : Bytes → KeyManager → ℕ → Bytes → Option Bytes
  seal nonce km ip text = elim (get_key km ip) [
    | none ↦ none
    | some key ↦ Option.map (λ c. nonce ++ c) (s.aead_encrypt key nonce text)
  ]

  unfoldable pub unseal : KeyManager → ℕ → Bytes → Option Bytes
  unseal km ip sealed = elim (get_key km ip) [
    | none ↦ none
    | some key ↦
        if ltb (length sealed) 28
        then none
        else s.aead_decrypt key (take 12 sealed) (drop 12 sealed)
  ]

  unfoldable pub exchange_keys : KeyManager → ℕ → Bytes → KeyManager × Option Bytes
  exchange_keys km ip client_key =
      let (km', key) = perform_handshake s km ip client_key in
      (km', Option.map (λ k. get_server_public_key km ++ k) key)

  unfoldable pub reference_command : Command → Bytes → Enclave → ℕ → Bytes → Enclave × Option Bytes
  unfolding seal unseal exchange_keys
  reference_command Command.ping nonce e ip bytes = (e, some [])
  reference_command Command.add_key nonce e ip bytes =
      if length bytes == 32
      then (let (km, added) = add_key e.manager ip bytes in
          (record e { manager = km }, if added then some [] else none))
      else (e, none)
  reference_command Command.remove_key nonce e ip bytes =
      (record e { manager = remove_key e.manager ip }, some [])
  reference_command Command.encrypt nonce e ip bytes = (e, seal nonce e.manager ip bytes)
  reference_command Command.decrypt nonce e ip bytes = (e, unseal e.manager ip bytes)
  reference_command Command.handshake nonce e ip bytes =
      if length bytes == 32
      then (let (km, keys) = exchange_keys e.manager ip bytes in (record e { manager = km }, keys))
      else (e, none)
  reference_command Command.shutdown nonce e ip bytes = (record e { running = false }, some [])
  reference_command Command.other nonce e ip bytes = (e, none)

  unfoldable pub reference : Bytes → Enclave → IpcRequest → Enclave × Option Bytes
  unfolding reference_command ipc_command
  reference nonce e req = reference_command (ipc_command req.command) nonce e req.vpn_ip req.payload

-- The response that carries it.
abbrev pub reply_to : ℕ → Option Bytes → IpcResponse
reply_to request_id none = init_ipc_response request_id status_failed [] 0
reply_to request_id (some bytes) = init_ipc_response request_id status_ok bytes (length bytes)
