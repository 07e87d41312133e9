-- ===== src/Tests/Enclave.antt =====
-- The enclave's theorems at concrete requests.
use cloud_service.Base.{
  ℕ, ◌≡◌, ◌≢◌, refl, sym, arith, List, [], ◌∷◌, ◌++◌, true, false, none, replicate,
  length-replicate,
}
use cloud_service.Enclave.{
  Stream, Turn, still_serving, serve, handle_ipc_request, answer, receive_request,
}
use cloud_service.Enclave.Answer.{Setting}
use cloud_service.Enclave.Handle.{handle_ipc_request_lem, answer_encrypt_overflow}
use cloud_service.Enclave.Receive.{with_request, receive_request_overflow}
use cloud_service.Enclave.Reference.{reference, reply_to}
use cloud_service.Enclave.Serve.{serve_closed}
use cloud_service.Ipc.{IpcRequest, ipc_command, ipc_encrypt, response_bytes}
use cloud_service.Ipc.RoundTrip.{RequestFits}
use cloud_service.Keys.{init_key_manager, add_key, get_key}
use cloud_service.Slots.{find_slot}
use cloud_service.Tests.Toy.{
  toy, toy_public, toy-AeadLaws, toy-ExchangeLaws, nonce, buffer, ip, keyed, one_key, keyed-Ready,
}
use cloud_service.Wire.{fault, done, htons}

-- three bytes to encrypt
abbrev request : IpcRequest
request = record {
  command = ipc_encrypt;
  request_id = 9;
  vpn_ip = ip;
  data_len = 0x0300;
  payload = 8 ∷ 9 ∷ 10 ∷ [];
}

request-RequestFits : RequestFits request
unfolding htons
request-RequestFits = record {
  command_fits = omega arith;
  request_id_fits = omega arith;
  vpn_ip_fits = omega arith;
  data_len_fits = omega arith;
  counted = refl;
}

request-Setting : Setting toy toy_public nonce keyed request buffer
request-Setting = record {
  aead = toy-AeadLaws;
  exchange = toy-ExchangeLaws;
  table = keyed-Ready.table;
  nonce_size = refl;
  fits = request-RequestFits;
  small = omega arith;
  buffer_size = length-replicate {A = ℕ} 4096 0;
}

abbrev quiet : Stream
quiet = record { incoming = []; outgoing = []; broken = false }

handle_ipc_request_lem_example :
    handle_ipc_request toy nonce buffer keyed (with_request request [] quiet)
    ≡ done (
      (reference toy nonce keyed request).0,
      record {
        incoming = [];
        outgoing =
            quiet.outgoing
            ++ response_bytes (reply_to request.request_id (reference toy nonce keyed request).1);
        broken = false;
      },
    )
unfolding ipc_command
handle_ipc_request_lem_example = handle_ipc_request_lem [] quiet request-Setting (omega arith)

one_key-known : get_key one_key ip ≢ none
unfolding get_key add_key init_key_manager find_slot
one_key-known h = absurd (cc h)

-- 4097 bytes, for a buffer of 4096
abbrev large : IpcRequest
large = record {
  command = ipc_encrypt;
  request_id = 9;
  vpn_ip = ip;
  data_len = 0x0110;
  payload = replicate 4097 0;
}

large-RequestFits : RequestFits large
unfolding htons
large-RequestFits = record {
  command_fits = omega arith;
  request_id_fits = omega arith;
  vpn_ip_fits = omega arith;
  data_len_fits = omega arith;
  counted = sym (length-replicate {A = ℕ} 4097 0);
}

receive_request_overflow_example : receive_request (with_request large [] quiet) ≡ fault
receive_request_overflow_example =
    receive_request_overflow large [] quiet large-RequestFits
      (omega (arith, length-replicate {A = ℕ} 4097 0))

-- 4069 bytes: with nonce and tag, 4097
abbrev wide : IpcRequest
wide = record {
  command = ipc_encrypt;
  request_id = 9;
  vpn_ip = ip;
  data_len = 0xe50f;
  payload = replicate 4069 0;
}

wide-Setting : Setting toy toy_public nonce keyed wide buffer
unfolding htons
wide-Setting = record {
  aead = toy-AeadLaws;
  exchange = toy-ExchangeLaws;
  table = keyed-Ready.table;
  nonce_size = refl;
  fits = record {
    command_fits = omega arith;
    request_id_fits = omega arith;
    vpn_ip_fits = omega arith;
    data_len_fits = omega arith;
    counted = sym (length-replicate {A = ℕ} 4069 0);
  };
  small = omega (arith, length-replicate {A = ℕ} 4069 0);
  buffer_size = length-replicate {A = ℕ} 4096 0;
}

answer_encrypt_overflow_example : answer toy nonce keyed wide buffer ≡ fault
unfolding ipc_command
answer_encrypt_overflow_example =
    answer_encrypt_overflow wide-Setting refl (omega (arith, length-replicate {A = ℕ} 4069 0))
      one_key-known

abbrev two_turns : List Turn
two_turns =
    record { is_ready = true; nonce = nonce; buffer = buffer }
    ∷ record { is_ready = false; nonce = nonce; buffer = buffer }
    ∷ []

serve_closed_example : serve toy two_turns keyed quiet ≡ done (still_serving keyed quiet)
serve_closed_example = serve_closed toy two_turns keyed quiet refl refl
