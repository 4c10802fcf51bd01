-- ===== src/Socket/TxQueue/Wakeup.antt =====
-- Which results of `sendto` count as success.
use xdpsock.Prelude.{ℕ, ◌≡◌, ◌↔◌, refl, ◌⊎◌, Result, ok, err, arith}
use xdpsock.Kernel.{Kernel, Machine}
use xdpsock.Socket.TxQueue.{TxQueue, is_transient, after_sendto, wakeup}

module _ (k : Kernel) where
  abbrev pub IsTransient : ℕ → Type 0
  IsTransient errno =
      (errno ≡ k.enobufs) ⊎ ((errno ≡ k.eagain) ⊎ ((errno ≡ k.ebusy) ⊎ (errno ≡ k.enetdown)))

  -- `TxQueue::wakeup` fails exactly where `sendto` fails with an error other than `ENOBUFS`, `EAGAIN`,
  -- `EBUSY` and `ENETDOWN`, and then with that error; the machine is the one that `sendto` leaves.
  pub wakeup_lem :
      (q : TxQueue) (m : Machine k.World)
      → let (sent, m') = k.sendto q.fd.id m in
        ((wakeup k q m).1 ≡ m')
        × ((errno : ℕ)
            → ((wakeup k q m).0 ≡ err errno) ↔ ((sent ≡ err errno) × (IsTransient errno → ⊥)))
  unfolding wakeup after_sendto is_transient
  wakeup_lem q m = (refl, λ errno. go errno (k.sendto q.fd.id m).0)
    where
      go :
          (errno : ℕ) (sent : Result ℕ ℕ)
          → (after_sendto k sent ≡ err errno) ↔ ((sent ≡ err errno) × (IsTransient errno → ⊥))
      go errno (ok n) = (λ h. absurd (ground arith), λ h. absurd (ground arith))
      go errno (err e) = (λ h. (ground arith, λ t. ground arith), λ h. ground arith)
