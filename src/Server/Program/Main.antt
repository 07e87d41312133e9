-- ===== src/Server/Program/Main.antt =====
-- The whole of `main` of VPN/src/server/vpn_server.c: start-up, event loop and clean-up. The loop ends
-- with the list of what its rounds meet, where a signal makes `running` 0. SIGPIPE ends the server in
-- the model where the clean-up sends to a dead enclave; a handler's request to an enclave that died is
-- a call of `exchange` as before.
use cloud_service.Base.{
  ℕ, ◌≡◌, ◌∙◌, refl, ap, Bool, true, false, Option, none, some, List, [], ◌∷◌, not, if◌then◌else◌,
  if_holds, ==_refl,
}
use cloud_service.Clients.{SockAddr}
use cloud_service.Server.{
  handle_udp_to_tun, handle_tun_to_udp, Server, Moment, Output, Loop, Activity, select_failed,
  timed_out, readable, event_loop_round, served, serve_udp, serve_tun,
}
use cloud_service.Server.Program.{Running, start_server, stop_server}
use cloud_service.Server.Program.Holds.{Holds, Stops, start_server-Holds, stop_server-Stops}
use cloud_service.EnclaveClient.{Link}
use cloud_service.System.{System, Outcomes, Child}
use cloud_service.System.Processes.{kill, find_child, mark_exited, is_enclave_running}
use cloud_service.Wire.{Bytes, Run, fault, done, ◌>>=◌, IfDone, IfDone-bind, IfDone-any}

-- What a round meets; `died` is whether the enclave has ended by then.
pub record Round : Type 0 where
  pub moment : Moment
  pub stale : Bytes
  pub activity : Activity
  pub died : Bool

-- the enclave's state as `is_enclave_running` sees it when `select` times out
abbrev pub with_liveness : System → ℕ → Activity → Activity
with_liveness s pid select_failed = select_failed
with_liveness s pid (timed_out now alive) = timed_out now (is_enclave_running s (some pid))
with_liveness s pid (readable udp tun) = readable udp tun

abbrev pub enclave_may_die : System → ℕ → Bool → System
enclave_may_die s pid died = if died then record s { children = mark_exited pid s.children } else s

abbrev pub Selects : Activity → Type 0
Selects select_failed = ⊥
Selects (timed_out now alive) = Unit
Selects (readable udp tun) = Unit

-- `select` fails in none of the rounds.
unfoldable pub AllSelect : List Round → Type 0
AllSelect [] = Unit
AllSelect (r ∷ rs) = Selects r.activity × AllSelect rs

module _ {P : Type 0} (exchange : P → Bytes → Option (P × Bytes)) where
  -- `while (running)`
  unfoldable pub server_loop : System → ℕ → Loop P → List Round → Run (System × Loop P)
  server_loop s pid l [] = done (s, l)
  server_loop s pid l (r ∷ rs) = if l.leaving then done (s, l) else (do
    l' ←
        event_loop_round exchange r.moment r.stale l
          (with_liveness (enclave_may_die s pid r.died) pid r.activity)
    server_loop (enclave_may_die s pid r.died) pid l' rs)

  -- the result of the clean-up, with the exit status; `none` is a server that SIGPIPE ended
  abbrev pub cleaned_up : List Output → Option (System × Link P) → Option (System × List Output × ℕ)
  cleaned_up outputs none = none
  cleaned_up outputs (some (s, link)) = some (s, outputs, 0)

  abbrev pub after_start :
      Outcomes
      → ℕ
      → List Round
      → System × Option (Running P)
      → Run (Option (System × List Output × ℕ))
  after_start o now rs (s, none) = done (some (s, [], 1))
  after_start o now rs (s, some r) = do
    (s', l) ←
        server_loop s r.enclave_pid
          (record { server = r.server; last_timeout_check = now; outputs = []; leaving = false }) rs
    done (cleaned_up l.outputs (stop_server exchange o s' (record r { server = l.server })))

  unfoldable pub server_main :
      Outcomes → P → System → ℕ → List Round → Run (Option (System × List Output × ℕ))
  server_main o peer s now rs = after_start o now rs (start_server exchange o peer s)

  module _ (pid : ℕ) (base : List Child) (fds : List ℕ) where
    -- The enclave is a child of the server, living or dead.
    abbrev pub Serving : System → Type 0
    Serving s =
        (dead : Bool) × (s.children ≡ record { pid = pid; exited = dead } ∷ base)
        × (s.descriptors ≡ fds)

    may_die-Serving : (s : System) (died : Bool) → Serving s → Serving (enclave_may_die s pid died)
    unfolding mark_exited
    may_die-Serving s true (dead, c, d) = (true, rw (c, ==_refl pid) refl, d)
    may_die-Serving s false h = h

    server_loop-Serving :
        (rs : List Round) (s : System) (l : Loop P)
        → Serving s
        → IfDone (λ p. Serving p.0) (server_loop s pid l rs)
    unfolding server_loop
    server_loop-Serving [] s l h = h
    server_loop-Serving (r ∷ rs) s l h = if_holds (IfDone (λ p. Serving p.0)) l.leaving h (
        IfDone-bind (λ l'. Unit) (λ p. Serving p.0)
          (event_loop_round exchange r.moment r.stale l
            (with_liveness (enclave_may_die s pid r.died) pid r.activity))
          _ (IfDone-any _)
          (λ l' u.
            server_loop-Serving rs (enclave_may_die s pid r.died) l' (may_die-Serving s r.died h)))

    alive_seen : (s : System) → Serving s → is_enclave_running s (some pid) ≡ true
    unfolding is_enclave_running find_child
    alive_seen s (dead, c, d) = rw (c, kill, find_child, ==_refl pid) refl

  served-leaving :
      (l : Loop P) (r : Run (Server P × List Output))
      → l.leaving ≡ false
      → IfDone (λ l'. l'.leaving ≡ false) (served exchange l r)
  served-leaving l fault h = tt
  served-leaving l (done (v, outputs)) h = h

  serve_udp-leaving :
      (m : Moment) (stale : Bytes) (l : Loop P) (udp : Option (Option (Bytes × SockAddr)))
      → l.leaving ≡ false
      → IfDone (λ l'. l'.leaving ≡ false) (serve_udp exchange m stale l udp)
  serve_udp-leaving m stale l none h = h
  serve_udp-leaving m stale l (some received) h =
      served-leaving l (handle_udp_to_tun exchange m l.server stale received) h

  serve_tun-leaving :
      (m : Moment) (l : Loop P) (tun : Option (Option Bytes))
      → l.leaving ≡ false
      → IfDone (λ l'. l'.leaving ≡ false) (serve_tun exchange m l tun)
  serve_tun-leaving m l none h = h
  serve_tun-leaving m l (some packet) h =
      served-leaving l (handle_tun_to_udp exchange m l.server packet) h

  module _ (pid : ℕ) (base : List Child) (fds : List ℕ) where
    round-leaving :
        (m : Moment) (stale : Bytes) (s : System) (l : Loop P) (a : Activity)
        → Serving pid base fds s
        → Selects a
        → l.leaving ≡ false
        → IfDone
            (λ l'. l'.leaving ≡ false)
            (event_loop_round exchange m stale l (with_liveness s pid a))
    unfolding event_loop_round
    round-leaving m stale s l select_failed serving selects h = absurd selects
    round-leaving m stale s l (timed_out now alive) serving selects h =
        ap not (alive_seen pid base fds s serving)
    round-leaving m stale s l (readable udp tun) serving selects h =
        IfDone-bind (λ l'. l'.leaving ≡ false) (λ l'. l'.leaving ≡ false)
          (serve_udp exchange m stale l udp) _ (serve_udp-leaving m stale l udp h)
          (λ l' h'. serve_tun-leaving m l' tun h')

    -- A server whose enclave is its child does not leave its loop by itself as long as `select` does not
    -- fail, no packet makes it fault and no request to a dead enclave raises SIGPIPE: not when the
    -- enclave dies either.
    pub server_loop-leaving :
        (rs : List Round) (s : System) (l : Loop P)
        → Serving pid base fds s
        → AllSelect rs
        → l.leaving ≡ false
        → IfDone (λ (p : System × Loop P). p.1.leaving ≡ false) (server_loop s pid l rs)
    unfolding server_loop AllSelect
    server_loop-leaving [] s l serving selects h = h
    server_loop-leaving (r ∷ rs) s l serving (selects, all) h =
        if_holds (IfDone (λ (p : System × Loop P). p.1.leaving ≡ false)) l.leaving h (
          let s' : System = enclave_may_die s pid r.died in
          let serving' : Serving pid base fds s' = may_die-Serving pid base fds s r.died serving in
          IfDone-bind (λ l'. l'.leaving ≡ false) (λ p. p.1.leaving ≡ false)
            (event_loop_round exchange r.moment r.stale l (with_liveness s' pid r.activity)) _
            (round-leaving r.moment r.stale s' l r.activity serving' selects h)
            (λ l' h'. server_loop-leaving rs s' l' serving' all h'))

  abbrev pub GivenBack : System → Option (System × List Output × ℕ) → Type 0
  GivenBack s none = Unit
  GivenBack s (some r) = (r.0.descriptors ≡ s.descriptors) × (r.0.children ≡ s.children)

  cleaned_up-GivenBack :
      (s : System) (outputs : List Output) (dead : Bool) (r : Option (System × Link P))
      → Stops s dead r
      → GivenBack s (cleaned_up outputs r)
  cleaned_up-GivenBack s outputs dead none h = tt
  cleaned_up-GivenBack s outputs true (some e) h = absurd (cc h)
  cleaned_up-GivenBack s outputs false (some e) (e', same, d, c) =
      let eq : e' ≡ e = cc same in (rw eq at d, rw eq at c)

  after_start-GivenBack :
      (o : Outcomes) (now : ℕ) (rs : List Round) (s : System) (q : System × Option (Running P))
      → Holds s q
      → IfDone (GivenBack s) (after_start o now rs q)
  after_start-GivenBack o now rs s (s', none) h = h
  after_start-GivenBack o now rs s (s', some r) (d, c, lt, lt') =
      IfDone-bind (λ p. Serving r.enclave_pid s.children s'.descriptors p.0) (GivenBack s)
        (server_loop s' r.enclave_pid _ rs) _
        (server_loop-Serving r.enclave_pid s.children s'.descriptors rs s' _ (false, c, refl))
        (λ p (dead, c', d'). cleaned_up-GivenBack s p.1.outputs dead _ (
          stop_server-Stops exchange o s p.0 (record r { server = p.1.server }) dead (d' ∙ d) c' lt
            lt'))

  -- However the server ends (a start-up that fails, a failed `select` or a signal), if no packet made
  -- it fault and no SIGPIPE ended it, it leaves the descriptors and the children that it found.
  pub server_main-GivenBack :
      (o : Outcomes) (peer : P) (s : System) (now : ℕ) (rs : List Round)
      → IfDone (GivenBack s) (server_main o peer s now rs)
  unfolding server_main
  server_main-GivenBack o peer s now rs =
      after_start-GivenBack o now rs s (start_server exchange o peer s)
        (start_server-Holds exchange o peer s)
