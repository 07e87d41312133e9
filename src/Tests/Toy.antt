-- ===== src/Tests/Toy.antt =====
-- A concrete `Sodium` that has the documented properties, and an enclave that waits for requests.
use cloud_service.Base.{
  ℕ, ◌+◌, ◌≡◌, refl, ap, true, none, some, [], ◌∷◌, ◌++◌, length, take, drop, replicate, arith, ltb,
  if◌then◌else◌, length-replicate, length-append, length-take, length-drop, le→ltb,
}
use cloud_service.Clients.{SockAddr, ClientTable, init_client_table, add_client}
use cloud_service.Crypto.{Sodium, AeadLaws, ExchangeLaws}
use cloud_service.Enclave.{Enclave}
use cloud_service.EnclaveClient.Peer.{Ready}
use cloud_service.Keys.{KeyManager, init_key_manager, add_key}
use cloud_service.Keys.Invariant.{init-IsValid, add_key-IsValid}
use cloud_service.Server.{Moment}
use cloud_service.Wire.{Bytes}

abbrev sums : Bytes → Bytes → Bytes
sums [] q = []
sums (x ∷ p) [] = []
sums (x ∷ p) (y ∷ q) = (x + y) ∷ sums p q

sums_comm : (p q : Bytes) → sums p q ≡ sums q p
sums_comm [] [] = refl
sums_comm [] (y ∷ q) = refl
sums_comm (x ∷ p) [] = refl
sums_comm (x ∷ p) (y ∷ q) = rw (sums_comm p q) (ap (λ n. n ∷ sums q p) (omega arith))

-- 16 zeros are the tag, and the text is plain.
abbrev pub toy : Sodium
toy = record {
  aead_encrypt = λ key nonce text. some (replicate 16 0 ++ text);
  aead_decrypt = λ key nonce c. if ltb (length c) 16 then none else some (drop 16 c);
  box_beforenm = λ public private. some (sums public private);
  kdf_derive_from_key = λ n subkey context master. take n (master ++ replicate n 0);
}

abbrev pub toy_public : Bytes → Bytes
toy_public private = private

tagged_some : {c text : Bytes} → some c ≡ some text → c ≡ text
tagged_some h = cc h

pub toy-AeadLaws : AeadLaws toy
toy-AeadLaws = record {
  encrypt_succeeds = λ key nonce text h. absurd (cc h);
  encrypt_length = λ key nonce text c h. rw (← tagged_some h) (omega arith);
  decrypt_length = λ key nonce c text. decrypted c text;
  decrypt_encrypt = λ key nonce text c h. rw (← tagged_some h) (opened text);
}
  where
    decrypted :
        (c text : Bytes)
        → (if ltb (length c) 16 then none else some (drop 16 c)) ≡ some text
        → length c ≡ length text + 16
    decrypted c text h = ground (arith, length-drop 16 c)

    opened :
        (text : Bytes)
        → (if ltb (length (replicate 16 0 ++ text)) 16
            then none
            else some (drop 16 (replicate 16 0 ++ text)))
          ≡ some text
    opened text = rw (le→ltb (length (replicate 16 0 ++ text)) 16 (omega arith)) refl

pub toy-ExchangeLaws : ExchangeLaws toy toy_public
toy-ExchangeLaws = record {
  secret_comm = λ a b. ap some (sums_comm b a);
  kdf_length = λ n subkey context master. omega (
    arith,
    length-take n (master ++ replicate n 0),
    length-append master (replicate n 0),
    length-replicate {A = ℕ} n 0,
  );
}

abbrev pub nonce : Bytes
nonce = replicate 12 7

abbrev pub buffer : Bytes
buffer = replicate 4096 0

abbrev pub server_key : Bytes
server_key = replicate 32 3

abbrev pub client_key : Bytes
client_key = replicate 32 5

-- 10.8.0.2 in network byte order
abbrev pub ip : ℕ
ip = 0x0200080a

abbrev pub no_keys : KeyManager
no_keys = init_key_manager server_key server_key

abbrev pub one_key : KeyManager
one_key = (add_key no_keys ip client_key).0

abbrev pub idle : Enclave
idle = record { manager = no_keys; running = true }

abbrev pub keyed : Enclave
keyed = record { manager = one_key; running = true }

pub idle-Ready : Ready toy toy_public nonce buffer idle
idle-Ready = record {
  aead = toy-AeadLaws;
  exchange = toy-ExchangeLaws;
  table = init-IsValid server_key server_key refl;
  nonce_size = refl;
  buffer_size = length-replicate {A = ℕ} 4096 0;
  running = refl;
}

pub keyed-Ready : Ready toy toy_public nonce buffer keyed
keyed-Ready = record {
  aead = toy-AeadLaws;
  exchange = toy-ExchangeLaws;
  table = add_key-IsValid ip client_key (init-IsValid server_key server_key refl) refl;
  nonce_size = refl;
  buffer_size = length-replicate {A = ℕ} 4096 0;
  running = refl;
}

abbrev pub alice : SockAddr
alice = record { sin_addr = 0x0100007f; sin_port = 1000 }

abbrev pub bob : SockAddr
bob = record { sin_addr = 0x0200007f; sin_port = 2000 }

abbrev pub moment : Moment
moment = record {
  now = 100;
  random = 7;
  clock = record { tv_sec = 100; tv_usec = 0 };
  sends = true;
}

abbrev pub with_alice : ClientTable
with_alice = (add_client init_client_table alice 100 7).0
