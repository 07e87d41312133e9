-- ===== src/VpnClient/Program/Whole.antt =====
-- The whole of `main` of VPN/src/client/vpn_client.c, from the arguments to the exit status.
use cloud_service.Base.{ℕ, ◌≡◌, refl, Bool, Option, none, some, List, [], ◌∷◌, if_holds}
use cloud_service.Config.{VpnConfig, config_create_default, config_load_from_file}
use cloud_service.Config.Print.{config_print}
use cloud_service.Config.EndMarks.{
  EndMarks, config_print-EndMarks, config_load-EndMarks, set_address-EndMarks, default-EndMarks,
}
use cloud_service.Text.{codes, same_string}
use cloud_service.Crypto.{Sodium, AeadLaws}
use cloud_service.Protocol.{Timeval}
use cloud_service.System.{System, Outcomes}
use cloud_service.VpnClient.Program.{Handshake, Inputs, ClientOutput}
use cloud_service.VpnClient.Program.Arguments.{client_config, with_server_ip, with_config_file}
use cloud_service.VpnClient.Program.Main.{client_main}
use cloud_service.VpnClient.Program.Packets.{Returns, AllSafe}
use cloud_service.VpnClient.Program.Safety.{client_main-descriptors}
use cloud_service.Wire.{Bytes, Run, fault, done, ◌>>=◌, IfDone, IfDone-bind}

-- What `main` reads of its surroundings besides the configuration.
pub record Surroundings : Type 0 where
  pub ready : Bool
  pub private_key : Bytes
  pub public_key : Bytes
  pub handshake : Handshake
  pub clock : Timeval
  pub rounds : List Inputs

-- The memory for the configuration, if there is any, has a null byte at the end of both arrays.
abbrev pub CleanMemory : Option VpnConfig → Type 0
CleanMemory none = Unit
CleanMemory (some stale) = EndMarks stale

module _ (o : Outcomes) (sodium : Sodium) (inet_pton : Bytes → Bool) (inet_ntop : ℕ → Bytes) where
  abbrev pub with_config :
      System → Surroundings → Option VpnConfig → Run (System × List ClientOutput × ℕ)
  with_config s u none = done (s, [], 1)
  with_config s u (some config) = config_print config >>= λ text.
      client_main o sodium inet_pton inet_ntop config s u.ready u.private_key u.public_key
        u.handshake u.clock u.rounds

  -- The files are a function from names to contents; `memory` is what `malloc` gives for the
  -- configuration.
  unfoldable pub client_program :
      System
      → (Bytes → Option Bytes)
      → Option VpnConfig
      → List Bytes
      → Surroundings
      → Run (System × List ClientOutput × ℕ)
  client_program s files memory args u = client_config files memory args >>= with_config s u

  abbrev pub Leaves : System → Run (System × List ClientOutput × ℕ) → Type 0
  Leaves s r =
      (e : System × List ClientOutput × ℕ) × (r ≡ done e) × (e.0.descriptors ≡ s.descriptors)

  printed-Leaves :
      (laws : AeadLaws sodium) (s : System) (u : Surroundings) (config : VpnConfig) (r : Run Bytes)
      {text : Bytes}
      → r ≡ done text
      → AllSafe u.rounds
      → Leaves s (
          r >>= (λ printed.
            client_main o sodium inet_pton inet_ntop config s u.ready u.private_key u.public_key
              u.handshake u.clock u.rounds))
  printed-Leaves laws s u config fault h safe = absurd (cc h)
  printed-Leaves laws s u config (done text) h safe =
      client_main-descriptors o sodium laws inet_pton inet_ntop config s u.ready u.private_key
        u.public_key u.handshake u.clock u.rounds safe

  with_config-Leaves :
      (laws : AeadLaws sodium) (s : System) (u : Surroundings) (config : Option VpnConfig)
      → CleanMemory config
      → AllSafe u.rounds
      → Leaves s (with_config s u config)
  with_config-Leaves laws s u none marks safe = (_, refl, refl)
  with_config-Leaves laws s u (some config) marks safe =
      printed-Leaves laws s u config (config_print config) (config_print-EndMarks config marks).1
        safe

  configured-Leaves :
      (laws : AeadLaws sodium) (s : System) (u : Surroundings) (r : Run (Option VpnConfig))
      → Returns r
      → IfDone CleanMemory r
      → AllSafe u.rounds
      → Leaves s (r >>= with_config s u)
  configured-Leaves laws s u fault h marks safe = absurd h
  configured-Leaves laws s u (done config) h marks safe =
      with_config-Leaves laws s u config marks safe

  default-CleanMemory :
      (memory : Option VpnConfig) → CleanMemory memory → CleanMemory (config_create_default memory)
  unfolding config_create_default
  default-CleanMemory none h = tt
  default-CleanMemory (some stale) h = default-EndMarks stale h

  address-CleanMemory :
      (address : Bytes) (memory : Option VpnConfig)
      → CleanMemory memory
      → IfDone CleanMemory (with_server_ip address memory)
  address-CleanMemory address none h = tt
  address-CleanMemory address (some config) h = set_address-EndMarks config address h

  file-CleanMemory :
      (file : Option Bytes) (memory : Option VpnConfig)
      → CleanMemory memory
      → IfDone CleanMemory (with_config_file file memory)
  file-CleanMemory file none h = tt
  file-CleanMemory file (some config) h =
      IfDone-bind (λ r. EndMarks r.0) CleanMemory (config_load_from_file config file) _
        (config_load-EndMarks config file h)
        (λ r marks. if_holds CleanMemory r.1 {x = some r.0} {y = none} marks tt)

  client_config-CleanMemory :
      (files : Bytes → Option Bytes) (memory : Option VpnConfig) (args : List Bytes)
      → CleanMemory memory
      → IfDone CleanMemory (client_config files memory args)
  unfolding client_config
  client_config-CleanMemory files memory [] h = tt
  client_config-CleanMemory files memory (address ∷ []) h =
      address-CleanMemory address (config_create_default memory) (default-CleanMemory memory h)
  client_config-CleanMemory files memory (option ∷ file ∷ []) h =
      if_holds (IfDone CleanMemory) (same_string option (codes "--config"))
        {x = with_config_file (files file) (config_create_default memory)} {y = done none}
        (file-CleanMemory (files file) (config_create_default memory)
          (default-CleanMemory memory h))
        tt
  client_config-CleanMemory files memory (a ∷ b ∷ c ∷ rest) h = tt

  -- With libsodium as documented, whatever the arguments, the files and the configuration that is read
  -- of them without a number outside `int`, negative numbers and strings longer than their arrays
  -- included, as long as the memory that `malloc` gave for the configuration had a null byte at the
  -- end of both arrays, every datagram has less than a header or a nonce behind its header, and every
  -- packet of the interface at most 2000 bytes: the client stays within its buffers and comes to its
  -- end, and however it ends (wrong arguments, no memory, no file, a handshake or an interface that
  -- fails, a lost connection, a failed `select` or a signal), it has closed every descriptor it
  -- opened and none that was there before.
  pub client_program-descriptors :
      (s : System) (files : Bytes → Option Bytes) (memory : Option VpnConfig) (args : List Bytes)
      (u : Surroundings)
      → AeadLaws sodium
      → CleanMemory memory
      → Returns (client_config files memory args)
      → AllSafe u.rounds
      → Leaves s (client_program s files memory args u)
  unfolding client_program
  client_program-descriptors s files memory args u laws marks configured safe =
      configured-Leaves laws s u (client_config files memory args) configured
        (client_config-CleanMemory files memory args marks) safe
