-- ===== src/Socket/Poll.antt =====
-- src/socket/fd.rs and src/socket/poll.rs: the descriptor with its two `pollfd`s, and `poll`.
-- The `revents` that the kernel writes are never read by the crate and left out.
pub mod Ready
use xdpsock.Prelude.{ℕ, Bool, true, false, Result, ok, err, not, ◌==◌, if◌then◌else◌}
use xdpsock.Kernel.{Kernel, Machine, Events, pollin, pollout}

pub record PollFd : Type 0 where
  pub fd : ℕ
  pub events : Events

pub record Fd : Type 0 where
  pub id : ℕ
  pub pollin_fd : PollFd
  pub pollout_fd : PollFd

-- `Fd::new`
pub new_fd : ℕ → Fd
new_fd id = record {
  id = id;
  pollin_fd = record { fd = id; events = pollin };
  pollout_fd = record { fd = id; events = pollout };
}

module _ (k : Kernel) where
  open k use {World}

  -- `poll`: an interrupted call counts as nothing ready.
  after_poll : Result ℕ ℕ → Result ℕ Bool
  after_poll (err errno) = if not (errno == k.eintr) then err errno else ok false
  after_poll (ok ready) = if ready == 0 then ok false else ok true

  unfoldable pub poll : PollFd → ℕ → Machine World → Result ℕ Bool × Machine World
  unfolding after_poll
  poll fd timeout m = let (ready, m') = k.poll fd.fd fd.events timeout m in (after_poll ready, m')

  unfoldable pub poll_read : Fd → ℕ → Machine World → Result ℕ Bool × Machine World
  unfolding poll
  poll_read fd timeout m = poll fd.pollin_fd timeout m

  unfoldable pub poll_write : Fd → ℕ → Machine World → Result ℕ Bool × Machine World
  unfolding poll
  poll_write fd timeout m = poll fd.pollout_fd timeout m
