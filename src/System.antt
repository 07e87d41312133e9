-- ===== src/System.antt =====
-- What the programs hold of the operating system: descriptors, the children of a process, and the
-- commands run by `system`. Whether a call succeeds is the environment's choice, `Outcomes`, by the
-- number of calls made before it. A descriptor or process number is not used a second time.
pub mod Sockets
pub mod Processes
pub mod IpPacket
use cloud_service.Base.{
  ℕ, suc, ◌+◌, ◌-◌, Bool, true, false, Option, none, some, List, [], ◌∷◌, ◌++◌, ◌==◌, if◌then◌else◌,
}
use cloud_service.Wire.{Bytes}

-- `succeeds` is about calls, `exits` about whether a child has ended when it is waited for.
pub record Outcomes : Type 0 where
  pub succeeds : ℕ → Bool
  pub exits : ℕ → Bool

-- A child that was started and not yet waited for; `exited` is a zombie.
pub record Child : Type 0 where
  pub pid : ℕ
  pub exited : Bool

pub record System : Type 0 where
  pub descriptors : List ℕ
  pub next_descriptor : ℕ
  pub children : List Child
  pub next_pid : ℕ
  pub commands : List Bytes
  pub calls : ℕ

-- the first occurrence taken out
unfoldable pub without : ℕ → List ℕ → List ℕ
without x [] = []
without x (y ∷ ys) = if y == x then ys else y ∷ without x ys

unfoldable pub close : System → ℕ → System
close s fd = record s { descriptors = without fd s.descriptors }

-- `if (fd >= 0) close(fd)`
abbrev pub close_open : System → Option ℕ → System
close_open s none = s
close_open s (some fd) = close s fd

module _ (o : Outcomes) where
  -- a call that gives nothing but success or failure
  unfoldable pub attempt : System → System × Bool
  attempt s = (record s { calls = s.calls + 1 }, o.succeeds s.calls)

  -- `open`, `socket`, `accept`
  unfoldable pub new_descriptor : System → System × Option ℕ
  new_descriptor s =
      if o.succeeds s.calls
      then (
        record s {
          descriptors = s.next_descriptor ∷ s.descriptors;
          next_descriptor = s.next_descriptor + 1;
          calls = s.calls + 1;
        },
        some s.next_descriptor,
      )
      else (record s { calls = s.calls + 1 }, none)

  -- `system(command) == 0`
  unfoldable pub run_command : System → Bytes → System × Bool
  run_command s command = (
    record s { commands = s.commands ++ (command ∷ []); calls = s.calls + 1 },
    o.succeeds s.calls,
  )

  -- a descriptor that is closed again if a later step of its set-up fails
  abbrev pub unless_closed : ℕ → System × Bool → System × Option ℕ
  unless_closed fd (s, true) = (s, some fd)
  unless_closed fd (s, false) = (close s fd, none)
