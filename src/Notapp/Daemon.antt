-- ===== src/Notapp/Daemon.antt =====
-- Assignment02/server.c: `daemonize`. The system calls are not part of the repository: they are the
-- operations of an interface, on a process of which the files behind its descriptors can be seen, and
-- whose laws are what their documentation says of the descriptors. What the calls of `fork` return is
-- an argument.
pub mod Descriptors
use c380_1code.Base.{
  ℕ, zero, suc, ◌≤◌, ◌<◌, ◌≡◌, ◌≢◌, Bool, Option, none, some, ◌==◌, if◌then◌else◌,
}

-- the file behind a descriptor
pub data File : Type 0 where
  dev_null : File
  other : ℕ → File

-- the signals that the daemon ignores
pub data Signal : Type 0 where
  sigchld : Signal
  sigtstp : Signal
  sigttou : Signal
  sigttin : Signal

-- a descriptor is free, and those below it are not
abbrev pub IsLowest : (ℕ → Option File) → ℕ → Type 0
IsLowest descriptor i = (descriptor i ≡ none) × ((j : ℕ) → j < i → descriptor j ≢ none)

-- the descriptor `i` is given the file `f`, and the others stay
abbrev pub Gains : (ℕ → Option File) → ℕ → File → (ℕ → Option File) → Type 0
Gains before i f after = (after i ≡ some f) × ((j : ℕ) → j ≢ i → after j ≡ before j)

pub record Kernel (P : Type 0) : Type 0 where
  pub descriptor : P → ℕ → Option File
  -- `getppid() == 1`
  pub is_daemon : P → Bool
  pub getdtablesize : ℕ
  pub setsid : P → P
  pub close : ℕ → P → P
  pub open_null : P → Option ℕ × P
  pub dup : Option ℕ → P → P
  pub umask : ℕ → P → P
  pub ignore : Signal → P → P
  -- no descriptor is as large as `getdtablesize`
  pub bounded : (p : P) (i : ℕ) → getdtablesize ≤ i → descriptor p i ≡ none
  pub setsid_keeps : (p : P) (j : ℕ) → descriptor (setsid p) j ≡ descriptor p j
  pub closed : (i : ℕ) (p : P) → descriptor (close i p) i ≡ none
  pub close_keeps : (i j : ℕ) (p : P) → j ≢ i → descriptor (close i p) j ≡ descriptor p j
  -- `open` takes the lowest free descriptor, and the null device is there
  pub opens :
      (p : P) (i : ℕ)
      → i < getdtablesize
      → IsLowest (descriptor p) i
      → ((open_null p).0 ≡ some i) × Gains (descriptor p) i dev_null (descriptor (open_null p).1)
  -- and so does `dup`
  pub dups :
      (p : P) (k i : ℕ) (f : File)
      → i < getdtablesize
      → descriptor p k ≡ some f
      → IsLowest (descriptor p) i
      → Gains (descriptor p) i f (descriptor (dup (some k) p))
  pub umask_keeps : (m : ℕ) (p : P) (j : ℕ) → descriptor (umask m p) j ≡ descriptor p j
  pub ignore_keeps : (s : Signal) (p : P) (j : ℕ) → descriptor (ignore s p) j ≡ descriptor p j

-- the result of `fork` in the process that goes on here
pub data Forked : Type 0 where
  fork_failed : Forked
  parent : Forked
  child : Forked

-- the process has exited, or is the daemon
pub data Daemonized (P : Type 0) : Type 0 where
  exited : (status : ℕ) → Daemonized P
  daemon : P → Daemonized P

module _ {P : Type 0} (kernel : Kernel P) where
  -- a round of the loop that closes the descriptors
  unfoldable pub close_unless : (sock i : ℕ) → P → P
  close_unless sock i p = if i == sock then p else kernel.close i p

  -- the loop from `i` on, down to 0
  unfoldable pub close_from : (sock i : ℕ) → P → P
  close_from sock zero p = close_unless sock 0 p
  close_from sock (suc i) p = close_from sock i (close_unless sock (suc i) p)

  -- the standard input, output and error
  unfoldable pub handle_standard : Option ℕ × P → P
  handle_standard (i, p) = kernel.dup i (kernel.dup i p)

  -- after the second `fork`
  unfoldable pub become_daemon : (sock : ℕ) → P → P
  become_daemon sock p =
      let p₁ = handle_standard (kernel.open_null (close_from sock kernel.getdtablesize p)) in
      kernel.ignore sigttin
        (kernel.ignore sigttou (kernel.ignore sigtstp (kernel.ignore sigchld (kernel.umask 23 p₁))))

  unfoldable pub daemonize : (first second : Forked) → (sock : ℕ) → P → Daemonized P
  daemonize first second sock p = if kernel.is_daemon p then daemon p else elim first [
    | fork_failed ↦ exited 1
    | parent ↦ exited 0
    | child ↦ elim second [
      | fork_failed ↦ exited 1
      | parent ↦ exited 0
      | child ↦ daemon (become_daemon sock (kernel.setsid p))
    ]
  ]
