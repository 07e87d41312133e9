-- ===== src/Enclave/Program.antt =====
-- `main` of VPN/src/enclave/enclave_main.c: the start, the loop that accepts connections and the
-- clean-up. The loops end with the lists of what they meet, where a signal makes `enclave_running` 0.
use cloud_service.Base.{
  ℕ, ◌≡◌, refl, sym, ◌∙◌, Bool, true, false, Option, none, some, List, [], ◌∷◌, if◌then◌else◌,
  ==_refl, if_holds, if_cong,
}
use cloud_service.Crypto.{Sodium}
use cloud_service.Enclave.{Enclave, Stream, Turn, serve, signalled}
use cloud_service.Enclave.Serve.{serve-signalled}
use cloud_service.Enclave.Security.{
  Protection, setup_memory_security, disable_core_dumps, protect, destroy_key_manager, IsErased,
  destroy_key_manager-IsErased,
}
use cloud_service.Keys.{KeyManager, init_key_manager}
use cloud_service.System.{System, Outcomes, close, without, new_descriptor, attempt}
use cloud_service.System.Sockets.{
  Opens, new_descriptor-Opens, create_unix_socket_server, create_unix_socket_server-Opens,
}
use cloud_service.Wire.{
  Bytes, Run, fault, done, ◌>>=◌, IfDone, IfDone-bind, IfDone-weaken, IfDone-any,
}

-- What the main loop meets in a round. A connection comes with its stream and its turns.
pub data Visit : Type 0 where
  select_failed : Visit
  timed_out : Visit
  knocks : Stream → List Turn → Visit

-- How `main` ends: `left` is what the memory of the key manager holds when it is given back, if there
-- was one, and `status` the exit status.
pub record Exit : Type 0 where
  pub system : System
  pub left : Option KeyManager
  pub protection : Protection
  pub status : ℕ

abbrev no_keys : System → Protection → Exit
no_keys sys protection = record { system = sys; left = none; protection = protection; status = 1 }

abbrev pub Erased : Option KeyManager → Type 0
Erased none = Unit
Erased (some km) = IsErased km

-- The descriptors of `sys`, and no key left behind.
abbrev pub Clean : System → Exit → Type 0
Clean sys r = (r.system.descriptors ≡ sys.descriptors) × Erased r.left

module _ (s : Sodium) (o : Outcomes) where
  -- from the result of `accept` on; a signal ends an inner loop that its turns have not ended
  abbrev pub accepted : Enclave → Stream → List Turn → System × Option ℕ → Run (Enclave × System)
  accepted e k turns (sys, none) = done (e, sys)
  accepted e k turns (sys, some client_fd) = do
    progress ← serve s turns e k
    done (signalled progress, close sys client_fd)

  -- `while (enclave_running)`
  unfoldable pub accept_loop : List Visit → Enclave → System → Run (Enclave × System)
  accept_loop [] e sys = done (e, sys)
  accept_loop (select_failed ∷ visits) e sys = done (e, sys)
  accept_loop (timed_out ∷ visits) e sys =
      let rest = accept_loop visits e sys in if e.running then rest else done (e, sys)
  accept_loop (knocks k turns ∷ visits) e sys =
      if e.running
      then (do (e', sys') ← accepted e k turns (new_descriptor o sys); accept_loop visits e' sys')
      else done (e, sys)

  -- `main` from the result of create_unix_socket_server on, with the key manager it has made
  abbrev pub with_socket : KeyManager → Protection → List Visit → System × Option ℕ → Run Exit
  with_socket km protection visits (sys, none) = done (record {
    system = sys;
    left = some (destroy_key_manager km);
    protection = protection;
    status = 1;
  })
  with_socket km protection visits (sys, some sock_fd) = do
    (e, sys') ← accept_loop visits (record { manager = km; running = true }) sys
    done (record {
      system = close sys' sock_fd;
      left = some (destroy_key_manager e.manager);
      protection = protection;
      status = 0;
    })

  -- from `crypto_init` on
  abbrev pub protected : Bool → Bool → Bytes → Bytes → List Visit → System × Protection → Run Exit
  protected ready memory public_key private_key visits (sys, protection) =
      if ready
      then (if memory
          then with_socket (init_key_manager public_key private_key) protection visits
              (create_unix_socket_server o sys)
          else done (no_keys sys protection))
      else done (no_keys sys protection)

  -- `main`: whether `crypto_init` succeeds and `init_key_manager` finds memory, and its new key pair,
  -- are arguments.
  unfoldable pub enclave_main : System → Bool → Bool → Bytes → Bytes → List Visit → Run Exit
  enclave_main sys ready memory public_key private_key visits =
      protected ready memory public_key private_key visits (protect o sys)

  accept_loop-stopped :
      (visits : List Visit) (e : Enclave) (sys : System)
      → e.running ≡ false
      → accept_loop visits e sys ≡ done (e, sys)
  unfolding accept_loop
  accept_loop-stopped [] e sys h = refl
  accept_loop-stopped (select_failed ∷ visits) e sys h = refl
  accept_loop-stopped (timed_out ∷ visits) e sys h = rw h refl
  accept_loop-stopped (knocks k turns ∷ visits) e sys h = rw h refl

  stopped_alike :
      (r : Run (Enclave × System)) (visits : List Visit)
      → IfDone (λ p. p.0.running ≡ false) r
      → (r >>= (λ p. accept_loop visits p.0 p.1)) ≡ (r >>= (λ p. accept_loop [] p.0 p.1))
  stopped_alike fault visits h = refl
  stopped_alike (done (e, sys)) visits h =
      accept_loop-stopped visits e sys h ∙ sym (accept_loop-stopped [] e sys h)

  accepted-stopped :
      (e : Enclave) (k : Stream) (turns : List Turn) (q : System × Option ℕ) {fd : ℕ}
      → q.1 ≡ some fd
      → IfDone (λ p. p.0.running ≡ false) (accepted e k turns q)
  accepted-stopped e k turns (sys, none) h = absurd (cc h)
  accepted-stopped e k turns (sys, some fd) h =
      IfDone-bind (λ p. (signalled p).running ≡ false) (λ p. p.0.running ≡ false)
        (serve s turns e k) _ (serve-signalled s turns e k) (λ p stopped. stopped)

  -- When a connection comes for which the system gives a descriptor, what the enclave does from then on
  -- does not depend on what its main loop would meet later: it serves no other connection, because
  -- the loop over the connection is only left when `enclave_running` is 0.
  pub accept_loop-once :
      (e : Enclave) (k : Stream) (turns : List Turn) (visits : List Visit) (sys : System) {fd : ℕ}
      → (new_descriptor o sys).1 ≡ some fd
      → accept_loop (knocks k turns ∷ visits) e sys ≡ accept_loop (knocks k turns ∷ []) e sys
  unfolding accept_loop
  accept_loop-once e k turns visits sys h = if_cong e.running (done (e, sys)) (
      stopped_alike (accepted e k turns (new_descriptor o sys)) visits
        (accepted-stopped e k turns (new_descriptor o sys) h))

  accepted-descriptors :
      (e : Enclave) (k : Stream) (turns : List Turn) (sys : System) (q : System × Option ℕ)
      → Opens sys q
      → IfDone (λ p. p.1.descriptors ≡ sys.descriptors) (accepted e k turns q)
  unfolding close without
  accepted-descriptors e k turns sys (sys', none) (d, c, le) = d
  accepted-descriptors e k turns sys (sys', some fd) (d, c, le, lt) =
      IfDone-bind (λ p. Unit) (λ p. p.1.descriptors ≡ sys.descriptors) (serve s turns e k) _
        (IfDone-any (serve s turns e k)) (λ p u. rw (d, ==_refl fd) refl)

  accept_loop-descriptors :
      (visits : List Visit) (e : Enclave) (sys : System)
      → IfDone (λ p. p.1.descriptors ≡ sys.descriptors) (accept_loop visits e sys)
  unfolding accept_loop
  accept_loop-descriptors [] e sys = refl
  accept_loop-descriptors (select_failed ∷ visits) e sys = refl
  accept_loop-descriptors (timed_out ∷ visits) e sys =
      if_holds (IfDone (λ p. p.1.descriptors ≡ sys.descriptors)) e.running
        (accept_loop-descriptors visits e sys) refl
  accept_loop-descriptors (knocks k turns ∷ visits) e sys =
      if_holds (IfDone (λ p. p.1.descriptors ≡ sys.descriptors)) e.running
        (IfDone-bind (λ p. p.1.descriptors ≡ sys.descriptors)
          (λ p. p.1.descriptors ≡ sys.descriptors) (accepted e k turns (new_descriptor o sys)) _
          (accepted-descriptors e k turns sys (new_descriptor o sys) (new_descriptor-Opens o sys))
          (λ p h.
            IfDone-weaken (λ q. q.1.descriptors ≡ p.1.descriptors)
              (λ q. q.1.descriptors ≡ sys.descriptors) (accept_loop visits p.0 p.1)
              (accept_loop-descriptors visits p.0 p.1) (λ q h'. h' ∙ h)))
        refl

  with_socket-Clean :
      (km : KeyManager) (protection : Protection) (visits : List Visit) (sys : System)
      (q : System × Option ℕ)
      → Opens sys q
      → IfDone (Clean sys) (with_socket km protection visits q)
  unfolding close without
  with_socket-Clean km protection visits sys (sys', none) (d, c, le) =
      (d, destroy_key_manager-IsErased km)
  with_socket-Clean km protection visits sys (sys', some fd) (d, c, le, lt) =
      let e : Enclave = record { manager = km; running = true } in
      IfDone-bind (λ p. p.1.descriptors ≡ sys'.descriptors) (Clean sys) (accept_loop visits e sys')
        _ (accept_loop-descriptors visits e sys')
        (λ p h. (rw (h, d, ==_refl fd) refl, destroy_key_manager-IsErased p.0.manager))

  protected-Clean :
      (ready memory : Bool) (public_key private_key : Bytes) (visits : List Visit) (sys : System)
      (q : System × Protection)
      → q.0.descriptors ≡ sys.descriptors
      → IfDone (Clean sys) (protected ready memory public_key private_key visits q)
  protected-Clean true true public_key private_key visits sys (sys', protection) d =
      IfDone-weaken (Clean sys') (Clean sys) _
        (with_socket-Clean (init_key_manager public_key private_key) protection visits sys'
          (create_unix_socket_server o sys') (create_unix_socket_server-Opens o sys'))
        (λ r clean. (clean.0 ∙ d, clean.1))
  protected-Clean true false public_key private_key visits sys (sys', protection) d = (d, tt)
  protected-Clean false memory public_key private_key visits sys (sys', protection) d = (d, tt)

  -- However the enclave ends (no libsodium, no memory, no socket, a failed `select` or a stop), if no
  -- request made it fault, it has closed every descriptor it opened and none that was there before,
  -- and the memory that it gives back holds no key, neither its own nor a client's.
  pub enclave_main-Clean :
      (sys : System) (ready memory : Bool) (public_key private_key : Bytes) (visits : List Visit)
      → IfDone (Clean sys) (enclave_main sys ready memory public_key private_key visits)
  unfolding enclave_main protect setup_memory_security disable_core_dumps attempt
  enclave_main-Clean sys ready memory public_key private_key visits =
      protected-Clean ready memory public_key private_key visits sys (protect o sys) refl
