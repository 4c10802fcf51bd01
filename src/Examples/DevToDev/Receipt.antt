-- ===== src/Examples/DevToDev/Receipt.antt =====
-- `rx_pkts` of examples/dev_to_dev.rs: which numbered packets came.

use xdpsock.Prelude.{
  ℕ, zero, suc, ◌*◌, ◌%◌, ◌^◌, Bool, true, false, ◌&&◌, not, Option, none, some, List, [], ◌∷◌,
  Outcome, ret, spinning, ◌>>=◌, ok, err, assign, index_range, replicate, add32, add64, ◌||◌, ltb,
  ◌==◌, if◌then◌else◌,
}
use xdpsock.Kernel.{Kernel, Machine}
use xdpsock.Examples.Wire.{Etherparse, LittleEndian}
use xdpsock.Xsk.Rx.{XskRx, recv_apply}
use xdpsock.Examples.DevToDev.{Filter, filter_pkt}

abbrev pub default_timeout : ℕ
default_timeout = 30

-- What the closure of `rx_pkts` changes.
pub record Received : Type 0 where
  pub matched_recvd_pkts : ℕ
  pub recvd_nums : List Bool

-- The count of the numbers that did not come.
abbrev pub missing : List Bool → ℕ
missing [] = 0
missing (true ∷ recvd_nums) = missing recvd_nums
missing (false ∷ recvd_nums) = suc (missing recvd_nums)

module _ (eth : Etherparse) (le : LittleEndian) where
  open eth use {from_ethernet, udp_size, udp_write}
  open le use {read_u64, write_u64}

  -- The closure of `rx_pkts`.
  unfoldable pub note_pkt : Filter → Received → List ℕ → Outcome Received
  note_pkt filter s bytes = elim (from_ethernet bytes) [
    | err e ↦ ret s
    | ok pkt ↦ if not (filter_pkt pkt filter) then ret s else do
      front ← index_range pkt.payload 0 8
      recvd_nums ← assign s.recvd_nums (read_u64 front) true
      ret (record { matched_recvd_pkts = add64 s.matched_recvd_pkts 1; recvd_nums = recvd_nums })
  ]

  -- The closure, on a state in which it may have panicked. A panic is seen behind the batch.
  abbrev pub note_next : Filter → Outcome Received → List ℕ → Outcome Received
  note_next filter s bytes = s >>= λ r. note_pkt filter r bytes

  module _ (k : Kernel) where
    open k use {World}

    -- The loop of `rx_pkts`. `elapsed` is the time, in nanoseconds, when so many rounds are left.
    unfoldable pub rx_loop :
        ℕ
        → ℕ
        → (ℕ → ℕ)
        → ℕ
        → Filter
        → ℕ
        → ℕ
        → Received
        → XskRx
        → Machine World
        → Outcome (Received × XskRx × Machine World)
    rx_loop zero fuel elapsed timeout filter n_pkts i s xsk m = spinning
    rx_loop (suc rounds) fuel elapsed timeout filter n_pkts i s xsk m =
        elim ((s.matched_recvd_pkts == n_pkts)
          || ((add32 i 1 % 65536 == 0) && ltb (timeout * 10 ^ 9) (elapsed rounds))) [
            | true ↦ ret (s, xsk, m)
            | false ↦ do
              (noted, rx', m') ← recv_apply k fuel (note_next filter) (ret s) xsk m
              s' ← noted
              rx_loop rounds fuel elapsed timeout filter n_pkts (add32 i 1) s' rx' m'
          ]

    unfoldable pub rx_pkts :
        ℕ
        → ℕ
        → (ℕ → ℕ)
        → Filter
        → ℕ
        → Option ℕ
        → XskRx
        → Machine World
        → Outcome (ℕ × Received × XskRx × Machine World)
    rx_pkts rounds fuel elapsed filter n_pkts timeout_sec xsk m = do
      let timeout : ℕ = elim timeout_sec [ some timeout ↦ timeout | none ↦ default_timeout ]
      let start : Received = record { matched_recvd_pkts = 0; recvd_nums = replicate n_pkts false }
      (s, rx', m') ← rx_loop rounds fuel elapsed timeout filter n_pkts 0 start xsk m
      ret (missing s.recvd_nums, s, rx', m')
