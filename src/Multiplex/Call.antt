-- ===== src/Multiplex/Call.antt =====
-- What the servers of IO/select_server, IO/poll_server and IO/epoll_server ask of the kernel.
use linux_learning_machine_c.Base.{
  ℕ, ◌+◌, ◌==◌, if◌then◌else◌, List, [], ◌∷◌, Bytes, take, c_str, length, ◌-◌,
}

-- `accept` that gave a descriptor, `read`, `write` (tried once), `close`, and `epoll_ctl`.
pub data Call : Type 0 where
  accepted : ℕ → Call
  asked : ℕ → Call
  answered : ℕ → Bytes → Call
  closed : ℕ → Call
  added : ℕ → Call
  removed : ℕ → Call

-- One for a call that the number names.
abbrev pub one : ℕ → ℕ → ℕ
one j fd = if j == fd then 1 else 0

-- How often `j` was given out by `accept`, and how often it was closed.
unfoldable pub accepts : ℕ → List Call → ℕ
accepts j [] = 0
accepts j (accepted fd ∷ t) = one j fd + accepts j t
accepts j (asked fd ∷ t) = accepts j t
accepts j (answered fd b ∷ t) = accepts j t
accepts j (closed fd ∷ t) = accepts j t
accepts j (added fd ∷ t) = accepts j t
accepts j (removed fd ∷ t) = accepts j t

unfoldable pub closes : ℕ → List Call → ℕ
closes j [] = 0
closes j (accepted fd ∷ t) = closes j t
closes j (asked fd ∷ t) = closes j t
closes j (answered fd b ∷ t) = closes j t
closes j (closed fd ∷ t) = one j fd + closes j t
closes j (added fd ∷ t) = closes j t
closes j (removed fd ∷ t) = closes j t

-- How often `j` was read.
unfoldable pub asks : ℕ → List Call → ℕ
asks j [] = 0
asks j (accepted fd ∷ t) = asks j t
asks j (asked fd ∷ t) = one j fd + asks j t
asks j (answered fd b ∷ t) = asks j t
asks j (closed fd ∷ t) = asks j t
asks j (added fd ∷ t) = asks j t
asks j (removed fd ∷ t) = asks j t

-- How often `j` was put under the watch of epoll, and how often it was taken off.
unfoldable pub adds : ℕ → List Call → ℕ
adds j [] = 0
adds j (accepted fd ∷ t) = adds j t
adds j (asked fd ∷ t) = adds j t
adds j (answered fd b ∷ t) = adds j t
adds j (closed fd ∷ t) = adds j t
adds j (added fd ∷ t) = one j fd + adds j t
adds j (removed fd ∷ t) = adds j t

unfoldable pub removes : ℕ → List Call → ℕ
removes j [] = 0
removes j (accepted fd ∷ t) = removes j t
removes j (asked fd ∷ t) = removes j t
removes j (answered fd b ∷ t) = removes j t
removes j (closed fd ∷ t) = removes j t
removes j (added fd ∷ t) = removes j t
removes j (removed fd ∷ t) = one j fd + removes j t

-- `buffer[n - 1] = 0`, and the buffer as a C string: what the callback is given of `n` bytes.
abbrev pub line_of : Bytes → Bytes
line_of chunk = c_str (take (length chunk - 1) chunk)
