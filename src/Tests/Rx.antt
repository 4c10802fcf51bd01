-- ===== src/Tests/Rx.antt =====
-- Witnesses of the theorems on receiving: two frames of four bytes behind the first four bytes.

use mathlib.Core.Option.{some-injective}
use xdpsock.Xsk.Rx.Frames.{FrameAt}
use xdpsock.Xsk.Rx.Valid.{IsValid}
use xdpsock.Xsk.Rx.Valid.Apply.{Applies, recv_apply_lem}
use xdpsock.Xsk.Rx.Valid.Recv.{Receives, recv_lem}
use xdpsock.Prelude.{
  sym, zero, suc, inl, inr, false, ℕ, ◌≡◌, refl, List, [], ◌∷◌, ◌++◌, ret, length, get_elem?, some,
  arith,
}
use xdpsock.Kernel.{Machine}
use xdpsock.Umem.Frame.{Frame, FrameStatus}
use xdpsock.Socket.Poll.{new_fd}
use xdpsock.Xsk.Rx.{XskRx, recv, recv_apply, refill}
use xdpsock.Xsk.Rx.Refill.{chunks, refill_lem}
use xdpsock.Xsk.Lent.{with_all}
use xdpsock.Umem.FillQueue.Publish.{addrs}
use xdpsock.Tests.Toy.{World, toy, fill_law, rx_law}
use xdpsock.Xsk.Rx.InOrder.{InOrder}
use xdpsock.Xsk.Rx.InOrder.Delivery.{Dequeues, recv-Dequeues}
use xdpsock.Tests.Toy.Receiving.{fifo, fill_contract, rx_contract}

abbrev first : Frame
first = record { addr = 4; len = 2; options = 0; mtu = 4; status = FrameStatus.filled }

abbrev second : Frame
second = record { addr = 8; len = 0; options = 0; mtu = 4; status = FrameStatus.free }

abbrev rx : XskRx
rx = record {
  fill_q = record { size = 4 };
  rx_q = record { fd = new_fd 7 };
  rx_frames = first ∷ second ∷ [];
  filled_frames = [];
  processed_frames = [];
  rx_frame_offset = 4;
  n_frames_to_be_filled = 1;
  frame_size = 4;
  rx_cursor = 0;
  poll_ms_timeout = 0;
  stats = record { pkts_rx = 1; pkts_rx_delivered = 0 };
}

abbrev memory : List ℕ
memory = 0 ∷ 0 ∷ 0 ∷ 0 ∷ 10 ∷ 11 ∷ 12 ∷ 13 ∷ 20 ∷ 21 ∷ 22 ∷ 23 ∷ []

abbrev collect : List ℕ → List ℕ → List ℕ
collect seen bytes = seen ++ bytes

abbrev machine : Machine World
machine = record {
  mem = memory;
  world = record {
    fill_slots = λ i. 0;
    fill_tail = 0;
    tx_slots = λ i. record { addr = 0; len = 0; options = 0 };
    tx_tail = 0;
    sent = [];
    late = false;
    busy = 0;
    fills = [];
    handed = [];
    queue = [];
  };
}

refill_lem_example :
    (m' : Machine World) × (refill toy 1 (new_fd 7) 0 (first ∷ second ∷ []) 2 machine ≡ ret m')
    × (length m'.mem ≡ 12)
    × (fill_contract.lent m'.world
        ≡ with_all (fill_contract.lent machine.world) (chunks 4 (addrs toy (first ∷ second ∷ []))))
unfolding fill_contract
refill_lem_example =
    refill_lem toy 4 fill_law fill_contract 1 (new_fd 7) 0 (first ∷ second ∷ []) machine
      (omega arith) (omega arith) (omega arith)

-- The first frame has a packet that waits, and the second is the kernel's.
abbrev pub valid_rx : XskRx
valid_rx = record rx {
  filled_frames =
      record { addr = 0; len = 0; options = 0 } ∷ record { addr = 0; len = 0; options = 0 } ∷ [];
}

abbrev pub lending : Machine World
lending = record machine { world = record machine.world { fills = 2 ∷ []; queue = 2 ∷ [] } }

valid_rx-FrameAt :
    (j : ℕ) (f : Frame)
    → get_elem? valid_rx.rx_frames j ≡ some f
    → FrameAt 4 1 (rx_contract.fill.lent lending.world) j f
unfolding rx_contract fill_contract
valid_rx-FrameAt zero f h =
    rw (sym (some-injective _ _ h))
      (record { placed = refl; agrees = inl (refl, refl, omega arith) })
valid_rx-FrameAt (suc zero) f h =
    rw (sym (some-injective _ _ h)) (record { placed = refl; agrees = inr (refl, refl) })
valid_rx-FrameAt (suc (suc j)) f h = cc

pub valid_rx-IsValid : IsValid rx_contract valid_rx lending
unfolding rx_contract fill_contract
valid_rx-IsValid = record {
  size = refl;
  base = 1;
  offset = refl;
  area = record { size_pos = omega arith; fits = omega arith; inside = omega arith };
  buffer = refl;
  cursor_in = omega arith;
  clear = refl;
  frames = record {
    each = valid_rx-FrameAt;
    owned = λ a held. (1, omega arith, ground (arith, held));
  };
  counted = refl;
  accounted = refl;
  ring_pos = omega arith;
}

recv_lem_example :
    Receives toy 4 fill_law rx_law rx_contract
      (0 ∷ 0 ∷ 0 ∷ 0 ∷ 0 ∷ [])
      valid_rx
      lending
      (recv toy 1 (0 ∷ 0 ∷ 0 ∷ 0 ∷ 0 ∷ []) valid_rx lending)
unfolding rx_contract fill_contract
recv_lem_example =
    recv_lem toy 4 fill_law rx_law rx_contract 1 (0 ∷ 0 ∷ 0 ∷ 0 ∷ 0 ∷ []) valid_rx lending
      valid_rx-IsValid (omega arith) (omega arith)

recv_apply_lem_example :
    Applies toy 4 fill_law rx_law rx_contract collect [] valid_rx lending
      (recv_apply toy 1 collect [] valid_rx lending)
unfolding rx_contract fill_contract
recv_apply_lem_example =
    recv_apply_lem toy 4 fill_law rx_law rx_contract collect 1 [] valid_rx lending valid_rx-IsValid
      (omega arith) (omega arith)

pub valid_rx-InOrder : InOrder fifo valid_rx lending ((10 ∷ 11 ∷ []) ∷ [])
unfolding fifo
valid_rx-InOrder = record {
  waiting = first ∷ [];
  number = refl;
  window = (refl, refl, tt);
  order = refl;
  contents = refl;
}

recv-Dequeues_example :
    Dequeues toy 4 fill_law rx_law rx_contract fifo
      (0 ∷ 0 ∷ 0 ∷ 0 ∷ 0 ∷ [])
      ((10 ∷ 11 ∷ []) ∷ [])
      valid_rx
      lending
      (recv toy 1 (0 ∷ 0 ∷ 0 ∷ 0 ∷ 0 ∷ []) valid_rx lending)
unfolding rx_contract fill_contract
recv-Dequeues_example =
    recv-Dequeues toy 4 fill_law rx_law rx_contract fifo 1 (0 ∷ 0 ∷ 0 ∷ 0 ∷ 0 ∷ [])
      ((10 ∷ 11 ∷ []) ∷ []) valid_rx lending valid_rx-IsValid valid_rx-InOrder (omega arith)
      (omega arith)
