-- ===== src/VpnClient/Program/Arguments.antt =====
-- The start of `main` of VPN/src/client/vpn_client.c: the arguments and the configuration. The files
-- are a function from names to contents; the argument vector is what stands behind the program's name.
use cloud_service.Base.{
  ◌≡◌, ◌<◌, refl, Option, none, some, List, [], ◌∷◌, ◌-◌, if◌then◌else◌, length,
}
use cloud_service.Config.{VpnConfig, config_create_default, config_load_from_file, address_size}
use cloud_service.Text.{codes, same_string, strncpy, string_in, Without}
use cloud_service.Text.Strings.{string_in-strncpy}
use cloud_service.Wire.{Bytes, Run, done, ◌>>=◌}

-- with the server's address as the one argument
abbrev pub with_server_ip : Bytes → Option VpnConfig → Run (Option VpnConfig)
with_server_ip server_ip none = done none
with_server_ip server_ip (some config) = done (
    some (record config {
      server_address = strncpy config.server_address server_ip (address_size - 1);
    }))

abbrev pub with_config_file : Option Bytes → Option VpnConfig → Run (Option VpnConfig)
with_config_file file none = done none
with_config_file file (some config) = do
  (config', loaded) ← config_load_from_file config file
  done (if loaded then some config' else none)

-- `none` is `return 1`; `memory` is what `malloc` gives for the configuration.
unfoldable pub client_config :
    (Bytes → Option Bytes) → Option VpnConfig → List Bytes → Run (Option VpnConfig)
client_config files memory [] = done none
client_config files memory (server_ip ∷ []) =
    with_server_ip server_ip (config_create_default memory)
client_config files memory (option ∷ file ∷ []) =
    if same_string option (codes "--config")
    then with_config_file (files file) (config_create_default memory)
    else done none
client_config files memory (a ∷ b ∷ c ∷ rest) = done none

-- With one argument the client's configuration has it as the server's address, if it has less than 255
-- bytes, whatever the memory held.
pub client_config-address :
    (files : Bytes → Option Bytes) (memory : VpnConfig) (server_ip : Bytes)
    → Without 0 server_ip
    → length server_ip < 255
    → (config : VpnConfig) × (client_config files (some memory) (server_ip ∷ [])
        ≡ done (some config))
      × (string_in config.server_address ≡ some server_ip)
unfolding client_config config_create_default
client_config-address files memory server_ip h short =
    (_, refl, string_in-strncpy _ server_ip (address_size - 1) h short)
