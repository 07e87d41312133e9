-- ===== src/Tests/Program.antt =====
-- The theorems of the programs' lives at concrete inputs.
use cloud_service.Config.{VpnConfig}
use cloud_service.Base.{
  arith, inr, ℕ, ◌≡◌, refl, Bool, true, false, Option, none, some, List, [], ◌∷◌, ◌++◌, ◌==◌, not,
  replicate,
}
use cloud_service.Clients.{init_client_table}
use cloud_service.Crypto.{crypto_ecdh}
use cloud_service.Enclave.{Stream, Turn}
use cloud_service.Enclave.Program.{
  knocks, accept_loop, accept_loop-once, Clean, enclave_main, enclave_main-Clean,
}
use cloud_service.EnclaveClient.{call, enclave_ping}
use cloud_service.Ipc.{read_response, init_ipc_request}
use cloud_service.Protocol.{connect_response_bytes, read_connect_response, init_vpn_header}
use cloud_service.EnclaveClient.{Link}
use cloud_service.Server.Program.{Running, start_server, stop_server}
use cloud_service.Server.Program.Holds.{Holds, start_server-Holds, stop_server-start_server}
use cloud_service.Server.{Loop}
use cloud_service.Server
use cloud_service.Server.Program.Main.{Round, AllSelect, server_loop, server_loop-leaving}
use cloud_service.System.{System, Outcomes, new_descriptor}
use cloud_service.Tests.Toy.{toy-AeadLaws, toy, keyed, client_key, moment}
use cloud_service.Tests.VpnClient.{response}
use cloud_service.System.Processes.{start_enclave_process}
use cloud_service.System.Sockets.{
  enclave_connect, create_tun_interface, configure_tun_ip, bring_tun_up, create_udp_server,
}
use cloud_service.Text.{codes}
use cloud_service.Text.Numbers.{pos}
use cloud_service.VpnClient.{vpn_connect, accept_response, agree}
use cloud_service.VpnClient.Program.{
  readable, recreate_socket, ClientState, Handshake, timed_out, Inputs, ClientOutput, connect,
  setup_client_tun, client_round,
}
use cloud_service.VpnClient.Program.Address.{client_round-commands}
use cloud_service.VpnClient.Program.Descriptors.{IsRunning}
use cloud_service.VpnClient.Program.Main.{new_client, init_vpn_client}
use cloud_service.VpnClient.Program.Pace.{IsFresh}
use cloud_service.VpnClient.Program.Reached.{AtLoop, started, AtLoop-IsRunning, AtLoop-IsFresh}
use cloud_service.VpnClient.Program.Packets.{AllSafe, Returns}
use cloud_service.VpnClient.Program.Arguments.{client_config}
use cloud_service.VpnClient.Program.Whole.{
  CleanMemory, Surroundings, client_program, client_program-descriptors,
}
use cloud_service.Config.{config_create_default}
use cloud_service.Wire.{done, htons, Bytes, IfDone}

-- Three descriptors are open before the program starts.
abbrev pub system : System
system = record {
  descriptors = 0 ∷ 1 ∷ 2 ∷ [];
  next_descriptor = 3;
  children = [];
  next_pid = 100;
  commands = [];
  calls = 0;
}

abbrev pub all_well : Outcomes
all_well = record { succeeds = λ n. true; exits = λ n. true }

-- The fifth call fails.
abbrev fifth_fails : Outcomes
fifth_fails = record { succeeds = λ n. not (n == 4); exits = λ n. false }

-- an enclave that answers any request with the status 0
abbrev agreeable : Bool → Bytes → Option (Bool × Bytes)
agreeable p request = some (p, 0 ∷ 0 ∷ 0 ∷ 1 ∷ 0 ∷ 0 ∷ 0 ∷ [])

start_server-Holds_example : Holds system (start_server agreeable fifth_fails true system)
start_server-Holds_example = start_server-Holds agreeable fifth_fails true system

abbrev settings : VpnConfig
settings = record {
  server_address = codes "10.0.0.1" ++ (0 ∷ []);
  server_port = 51820;
  username = codes "alice" ++ (0 ∷ []);
  auto_reconnect = pos 1;
  max_reconnect_attempts = pos 10;
  keepalive_interval = pos 30;
  pong_timeout = pos 60;
  log_level = pos 2;
}

abbrev handshake : Handshake
handshake = record {
  clock = moment.clock;
  now = 100;
  stale = replicate 2048 0;
  sends = true;
  received = some (connect_response_bytes response);
}

abbrev valid : Bytes → Bool
valid address = true

abbrev text_of : ℕ → Bytes
text_of ip = codes "10.8.0.2"

abbrev lost : Inputs
lost = record {
  handshake = handshake;
  activity = timed_out;
  clock = moment.clock;
  now = 1000;
  sends = true;
  nonce = [];
}

-- 40 bytes from the server and a packet of 100 bytes
abbrev busy : Inputs
busy = record {
  handshake = handshake;
  activity = readable (some (some (replicate 40 3))) (some (some (replicate 100 1)));
  clock = moment.clock;
  now = 110;
  sends = true;
  nonce = replicate 12 0;
}

busy-AllSafe : AllSafe (busy ∷ lost ∷ [])
unfolding AllSafe
busy-AllSafe = ((inr (omega arith), omega arith), (tt, tt))

abbrev surroundings : Surroundings
surroundings = record {
  ready = true;
  private_key = client_key;
  public_key = client_key;
  handshake = handshake;
  clock = moment.clock;
  rounds = busy ∷ lost ∷ [];
}

abbrev no_files : Bytes → Option Bytes
no_files name = none

-- what `malloc` gives: any bytes, the last of each array null
abbrev memory : VpnConfig
memory = record settings {
  server_address = replicate 255 7 ++ (0 ∷ []);
  username = replicate 63 7 ++ (0 ∷ []);
}

configures : Returns (client_config no_files (some memory) (codes "10.0.0.1" ∷ []))
unfolding client_config config_create_default
configures = tt

memory-CleanMemory : CleanMemory (some memory)
memory-CleanMemory = (refl, refl)

client_program-descriptors_example :
    (r : System × List ClientOutput × ℕ) × (client_program all_well toy valid text_of system
        no_files
        (some memory)
        (codes "10.0.0.1" ∷ [])
        surroundings
      ≡ done r)
    × (r.0.descriptors ≡ 0 ∷ 1 ∷ 2 ∷ [])
client_program-descriptors_example =
    client_program-descriptors all_well toy valid text_of system no_files (some memory)
      (codes "10.0.0.1" ∷ []) surroundings toy-AeadLaws memory-CleanMemory configures busy-AllSafe

abbrev fresh : ClientState
fresh = new_client system client_key client_key

abbrev connected : ClientState
connected = (connect all_well valid toy settings fresh handshake).0

connects :
    connect all_well valid toy settings fresh handshake
    ≡ (connected, (connect all_well valid toy settings fresh handshake).1, true)
unfolding connect recreate_socket new_descriptor vpn_connect accept_response agree
    read_connect_response connect_response_bytes init_vpn_header crypto_ecdh
connects = refl

abbrev set_up : ClientState
set_up = (setup_client_tun all_well text_of connected).0

sets_up : setup_client_tun all_well text_of connected ≡ (set_up, true)
unfolding setup_client_tun connect recreate_socket new_descriptor vpn_connect accept_response agree
    create_tun_interface configure_tun_ip bring_tun_up
sets_up = refl

at_loop : AtLoop all_well toy valid text_of settings system set_up
unfolding init_vpn_client
at_loop =
    started true client_key client_key fresh connected handshake
      (connect all_well valid toy settings fresh handshake).1 refl connects sets_up

AtLoop-IsRunning_example : IsRunning (0 ∷ 1 ∷ 2 ∷ []) set_up
AtLoop-IsRunning_example = AtLoop-IsRunning all_well toy valid text_of settings at_loop

AtLoop-IsFresh_example : IsFresh set_up.client
AtLoop-IsFresh_example = AtLoop-IsFresh all_well toy valid text_of settings at_loop

client_round-commands_example :
    IfDone
      (λ (r : ClientState × List ClientOutput × Bool). r.0.system.commands ≡ set_up.system.commands)
      (client_round all_well toy valid text_of settings set_up lost)
client_round-commands_example =
    client_round-commands all_well toy valid text_of settings lost at_loop

abbrev idle : Turn
idle = record { is_ready = false; nonce = []; buffer = [] }

abbrev quiet : Stream
quiet = record { incoming = []; outgoing = []; broken = false }

opens : (new_descriptor all_well system).1 ≡ some 3
unfolding new_descriptor
opens = refl

accept_loop-once_example :
    accept_loop toy all_well (knocks quiet (idle ∷ []) ∷ knocks quiet [] ∷ []) keyed system
    ≡ accept_loop toy all_well (knocks quiet (idle ∷ []) ∷ []) keyed system
accept_loop-once_example =
    accept_loop-once toy all_well keyed quiet (idle ∷ []) (knocks quiet [] ∷ []) system opens

enclave_main-Clean_example :
    IfDone
      (Clean system)
      (enclave_main toy all_well system true true client_key client_key (knocks quiet [] ∷ []))
enclave_main-Clean_example =
    enclave_main-Clean toy all_well system true true client_key client_key (knocks quiet [] ∷ [])

abbrev the_server : Running Bool
the_server = record {
  enclave_pid = 100;
  enclave_fd = 3;
  tun_fd = 4;
  udp_fd = 5;
  server = record {
    table = init_client_table;
    link = record { peer = true; unread = []; request_id = 1 };
    sequence = 0;
  };
}

starts :
    start_server agreeable all_well true system
    ≡ ((start_server agreeable all_well true system).0, some the_server)
unfolding start_server start_enclave_process enclave_connect enclave_ping create_tun_interface
    configure_tun_ip bring_tun_up create_udp_server call htons read_response init_ipc_request
starts = refl

-- the system when the server stops, its enclave still running
abbrev at_stop : System
at_stop = record {
  descriptors = 5 ∷ 4 ∷ 3 ∷ 0 ∷ 1 ∷ 2 ∷ [];
  next_descriptor = 6;
  children = record { pid = 100; exited = false } ∷ [];
  next_pid = 101;
  commands = [];
  calls = 50;
}

holds : at_stop.descriptors ≡ (start_server agreeable all_well true system).0.descriptors
unfolding start_server start_enclave_process enclave_connect enclave_ping create_tun_interface
    configure_tun_ip bring_tun_up create_udp_server call htons read_response init_ipc_request
holds = refl

stop_server-start_server_example :
    (e : System × Link Bool) × (stop_server agreeable all_well at_stop the_server ≡ some e)
    × (e.0.descriptors ≡ 0 ∷ 1 ∷ 2 ∷ [])
    × (e.0.children ≡ [])
stop_server-start_server_example =
    stop_server-start_server agreeable all_well true system
      (start_server agreeable all_well true system).0 at_stop the_server false starts holds refl

-- A server at the start of its loop, and two timeouts: the enclave dies before the first.
abbrev looping : Loop Bool
looping = record {
  server = the_server.server;
  last_timeout_check = 0;
  outputs = [];
  leaving = false;
}

abbrev silence : Bool → Round
silence died = record {
  moment = moment;
  stale = [];
  activity = Server.Activity.timed_out 40 true;
  died = died;
}

abbrev serving : System
serving = record {
  descriptors = 5 ∷ 4 ∷ 3 ∷ [];
  next_descriptor = 6;
  children = record { pid = 100; exited = false } ∷ [];
  next_pid = 101;
  commands = [];
  calls = 9;
}

silence-AllSelect : AllSelect (silence true ∷ silence false ∷ [])
unfolding AllSelect
silence-AllSelect = (tt, (tt, tt))

server_loop-leaving_example :
    IfDone
      (λ (p : System × Loop Bool). p.1.leaving ≡ false)
      (server_loop agreeable serving 100 looping (silence true ∷ silence false ∷ []))
server_loop-leaving_example =
    server_loop-leaving agreeable 100 [] (5 ∷ 4 ∷ 3 ∷ []) (silence true ∷ silence false ∷ [])
      serving looping (false, refl, refl) silence-AllSelect refl
