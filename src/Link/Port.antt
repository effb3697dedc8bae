-- ===== src/Link/Port.antt =====
-- What the operating system does for a transport, as an interface: `isatty`, `read` and `write`
-- on the handle's file descriptor. The state `S` is everything behind the descriptor.
use libmbus.Base.{ℕ, Bool, List, ◌++◌, ◌≤◌, ◌<◌, ◌≡◌, length}

-- What `read` returned: some bytes (none at a timeout of the serial line or at the end of a
-- connection), or -1 with `errno` EINTR, EAGAIN or EWOULDBLOCK, or another one.
pub data Read : Type 0 where
  bytes : List ℕ → Read
  interrupted would_block failed : Read

pub record Port (S : Type 0) : Type 0 where
  pub is_open : S → Bool
  pub read : S → ℕ → Read × S
  -- `false` is -1.
  pub write : S → List ℕ → Bool × S

-- `read` returns at most as many bytes as it is asked for.
abbrev pub ReadsAtMost : {S : Type 0} → Port S → Type 0
ReadsAtMost {S} p =
    (s : S) (n : ℕ) (xs : List ℕ) (s' : S) → p.read s n ≡ (bytes xs, s') → length xs ≤ n

-- A line on which bytes arrive in order and none are lost: while bytes are to come, `read` returns
-- some of them, from one up to as many as it is asked for.
pub record IsStream {S : Type 0} (p : Port S) (to_come : S → List ℕ) : Type 0 where
  pub chunk : S → ℕ → List ℕ
  pub after : S → ℕ → S
  pub reads :
      (s : S) (n : ℕ) → 0 < n → 0 < length (to_come s) → p.read s n ≡ (bytes (chunk s n), after s n)
  pub some_read : (s : S) (n : ℕ) → 0 < n → 0 < length (to_come s) → 0 < length (chunk s n)
  pub at_most : (s : S) (n : ℕ) → 0 < n → 0 < length (to_come s) → length (chunk s n) ≤ n
  pub in_order :
      (s : S) (n : ℕ)
      → 0 < n
      → 0 < length (to_come s)
      → to_come s ≡ chunk s n ++ to_come (after s n)
