-- ===== src/Socket/Poll/Ready.antt =====
-- What `poll` makes of each result of the system call.
use xdpsock.Prelude.{ℕ, ◌<◌, ◌≡◌, ◌≢◌, ◌↔◌, refl, true, Result, ok, err, arith}
use xdpsock.Kernel.{Kernel, Machine}
use xdpsock.Socket.Poll.{PollFd, after_poll, poll}

module _ (k : Kernel) where
  -- `poll` says that the descriptor is ready exactly where the system call counts at least one, fails
  -- exactly where the call fails for another reason than an interruption, and then with its error; so an
  -- interrupted call and a count of 0 both mean not ready. The machine is the one that the call leaves.
  pub poll_lem :
      (fd : PollFd) (timeout : ℕ) (m : Machine k.World)
      → let (ready, m') = k.poll fd.fd fd.events timeout m in
        ((poll k fd timeout m).1 ≡ m')
        × (((poll k fd timeout m).0 ≡ ok true) ↔ ((n : ℕ) × (ready ≡ ok n) × (0 < n)))
        × ((errno : ℕ)
            → ((poll k fd timeout m).0 ≡ err errno) ↔ ((ready ≡ err errno) × (errno ≢ k.eintr)))
  unfolding poll after_poll
  poll_lem fd timeout m =
      let ready = (k.poll fd.fd fd.events timeout m).0 in
      (refl, go_ready ready, λ errno. go_error errno ready)
    where
      go_ready :
          (ready : Result ℕ ℕ)
          → (after_poll k ready ≡ ok true) ↔ ((n : ℕ) × (ready ≡ ok n) × (0 < n))
      go_ready (ok n) = (λ h. (n, refl, ground arith), λ h. ground arith)
      go_ready (err e) = (λ h. absurd (ground arith), λ h. absurd (ground arith))

      go_error :
          (errno : ℕ) (ready : Result ℕ ℕ)
          → (after_poll k ready ≡ err errno) ↔ ((ready ≡ err errno) × (errno ≢ k.eintr))
      go_error errno (ok n) = (λ h. absurd (ground arith), λ h. absurd (ground arith))
      go_error errno (err e) = (λ h. (ground arith, λ t. ground arith), λ h. ground arith)
