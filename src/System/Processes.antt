-- ===== src/System/Processes.antt =====
-- Starting and stopping the enclave process: VPN/src/server/enclave.c. A `pid_t` that may be -1 is an
-- option. The child is what `execl` makes it; `kill` reaches every child that has not been waited
-- for, a zombie too, and `waitpid` ends a zombie.
use cloud_service.Base.{
  ℕ, ◌+◌, ◌≡◌, refl, ap, Bool, true, false, Option, none, some, inl, inr, List, [], ◌∷◌, ◌==◌,
  if◌then◌else◌, Bool-cases, Option-cases,
}
use cloud_service.System.{System, Outcomes, Child}

unfoldable pub find_child : ℕ → List Child → Option Child
find_child pid [] = none
find_child pid (c ∷ cs) = if c.pid == pid then some c else find_child pid cs

unfoldable pub remove_child : ℕ → List Child → List Child
remove_child pid [] = []
remove_child pid (c ∷ cs) = if c.pid == pid then cs else c ∷ remove_child pid cs

-- The process ends.
unfoldable pub mark_exited : ℕ → List Child → List Child
mark_exited pid [] = []
mark_exited pid (c ∷ cs) =
    if c.pid == pid then record c { exited = true } ∷ cs else c ∷ mark_exited pid cs

abbrev pub reap : System → ℕ → System
reap s pid = record s { children = remove_child pid s.children }

-- `kill(pid, sig) == 0`
abbrev pub kill : System → ℕ → Bool
kill s pid = elim (find_child pid s.children) [ none ↦ false | some c ↦ true ]

abbrev pub is_zombie : Option Child → Bool
is_zombie none = false
is_zombie (some c) = c.exited

-- The child has ended, and the system has closed its sockets.
abbrev pub has_exited : System → ℕ → Bool
has_exited s pid = is_zombie (find_child pid s.children)

-- what `waitpid` with WNOHANG gives: 0, the process, or -1
pub data Waited : Type 0 where
  still_running : Waited
  reaped : Waited
  wait_failed : Waited

module _ (o : Outcomes) where
  abbrev pub wait_child : System → ℕ → Bool → System × Waited
  wait_child s pid true = (reap (record s { calls = s.calls + 1 }) pid, reaped)
  wait_child s pid false = (record s { calls = s.calls + 1 }, still_running)

  unfoldable pub waitpid_nohang : System → ℕ → System × Waited
  unfolding find_child remove_child
  waitpid_nohang s pid = elim (find_child pid s.children) [
    | none ↦ (s, wait_failed)
    | some c ↦ wait_child s pid (if c.exited then true else o.exits s.calls)
  ]

  unfoldable pub start_enclave_process : System → System × Option ℕ
  start_enclave_process s =
      if o.succeeds s.calls
      then (
        record s {
          children = record { pid = s.next_pid; exited = false } ∷ s.children;
          next_pid = s.next_pid + 1;
          calls = s.calls + 1;
        },
        some s.next_pid,
      )
      else (record s { calls = s.calls + 1 }, none)

  -- after the second `waitpid`: SIGKILL, and a `waitpid` that waits
  abbrev pub kill_unless_ended : ℕ → System × Waited → System
  kill_unless_ended pid (s, still_running) = reap s pid
  kill_unless_ended pid (s, reaped) = s
  kill_unless_ended pid (s, wait_failed) = s

  abbrev pub wait_again : ℕ → System × Waited → System × Waited
  wait_again pid (s, still_running) = waitpid_nohang s pid
  wait_again pid (s, reaped) = (s, reaped)
  wait_again pid (s, wait_failed) = (s, wait_failed)

  unfoldable pub stop_enclave_process : System → Option ℕ → System
  unfolding waitpid_nohang
  stop_enclave_process s none = s
  stop_enclave_process s (some pid) =
      if kill s pid then kill_unless_ended pid (wait_again pid (waitpid_nohang s pid)) else s

unfoldable pub is_enclave_running : System → Option ℕ → Bool
is_enclave_running s none = false
is_enclave_running s (some pid) = kill s pid

waitpid_nohang_lem :
    (o : Outcomes) (s : System) (pid : ℕ) {c : Child}
    → find_child pid s.children ≡ some c
    → waitpid_nohang o s pid ≡ wait_child o s pid (if c.exited then true else o.exits s.calls)
unfolding waitpid_nohang
waitpid_nohang_lem o s pid here = rw (here, waitpid_nohang) refl

stop_from :
    (o : Outcomes) (s : System) (pid : ℕ) {c : Child}
    → find_child pid s.children ≡ some c
    → stop_enclave_process o s (some pid)
      ≡ kill_unless_ended o pid
          (wait_again o pid (wait_child o s pid (if c.exited then true else o.exits s.calls)))
unfolding stop_enclave_process
stop_from o s pid here = rw (here, kill, waitpid_nohang_lem o s pid here) refl

kill_unless_ended_lem :
    (o : Outcomes) (s : System) (pid : ℕ) {c : Child}
    → find_child pid s.children ≡ some c
    → c.exited ≡ false
    → kill_unless_ended o pid (waitpid_nohang o s pid)
      ≡ record s { children = remove_child pid s.children; calls = s.calls + 1 }
kill_unless_ended_lem o s pid here alive = elim (Bool-cases (o.exits s.calls)) [
  | inl obeys ↦ rw (waitpid_nohang_lem o s pid here, alive, obeys) refl
  | inr refuses ↦ rw (waitpid_nohang_lem o s pid here, alive, refuses) refl
]

-- Stopping a child that has not been waited for ends it and takes it off the list of children, whether
-- it obeys SIGTERM at once, within five seconds or not at all; nothing else of the system changes but
-- the count of calls.
pub stop_enclave_process_lem :
    (o : Outcomes) (s : System) (pid : ℕ) {c : Child}
    → find_child pid s.children ≡ some c
    → (n : ℕ) × (stop_enclave_process o s (some pid)
        ≡ record s { children = remove_child pid s.children; calls = n })
unfolding stop_enclave_process
stop_enclave_process_lem o s pid {c} here = elim (Bool-cases c.exited) [
  | inl ended ↦ (s.calls + 1, rw (stop_from o s pid here, ended) refl)
  | inr alive ↦ elim (Bool-cases (o.exits s.calls)) [
    | inl obeys ↦ (s.calls + 1, rw (stop_from o s pid here, alive, obeys) refl)
    | inr waits ↦ (
      s.calls + 1 + 1,
      rw (stop_from o s pid here, alive, waits)
          (kill_unless_ended_lem o (record s { calls = s.calls + 1 }) pid here alive),
    )
  ]
]

mark_exited-find_child :
    (pid : ℕ) (cs : List Child) {c : Child}
    → find_child pid cs ≡ some c
    → (c' : Child) × (find_child pid (mark_exited pid cs) ≡ some c')
unfolding find_child mark_exited
mark_exited-find_child pid [] h = absurd (cc h)
mark_exited-find_child pid (c ∷ cs) h = elim (Bool-cases (c.pid == pid)) [
  | inl same ↦ (record c { exited = true }, rw (same, same) refl)
  | inr other ↦ rw (other, other) (mark_exited-find_child pid cs (rw other at h))
]

-- The check for a living enclave cannot see that it has died: once started, the process counts as
-- running until it is waited for, which only `stop_enclave_process` does.
pub is_enclave_running_zombie :
    (s : System) (pid : ℕ)
    → is_enclave_running s (some pid) ≡ true
    → is_enclave_running (record s { children = mark_exited pid s.children }) (some pid) ≡ true
unfolding is_enclave_running
is_enclave_running_zombie s pid h = elim (Option-cases (find_child pid s.children)) [
  | inl missing ↦
      absurd (cc (h, ap (λ r. elim r as (λ x. Bool) [ none ↦ false | some c ↦ true ]) missing))
  | inr (c, here) ↦
      let (c', still) = mark_exited-find_child pid s.children here in rw (still, kill) refl
]
