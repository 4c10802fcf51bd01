-- ===== src/Tests/OneSocket.antt =====
-- A socket with four frames to send from and two to receive into, of which the first has a packet.
use mathlib.Core.Option.{some-injective}
use xdpsock.Prelude.{
  ℕ, zero, suc, ◌≡◌, refl, sym, List, [], ◌∷◌, ◌++◌, some, inl, inr, false, get_elem?, replicate,
  add32, arith,
}
use xdpsock.Kernel.{Machine, Desc}
use xdpsock.Kernel.Stores.{stores}
use xdpsock.Umem.Frame.{Frame, FrameStatus}
use xdpsock.Umem.Build.{cut_frames}
use xdpsock.Socket.Poll.{new_fd}
use xdpsock.Xsk.Tx
use xdpsock.Xsk.Tx.{
  XskTx, XskSendError, send, complete_frames, update_tx_frames, mark_free, advance,
  put_batch_on_tx_queue, batch_range, produce_all,
}
use xdpsock.Xsk.Tx.Valid as TxValid
use xdpsock.Xsk.Tx.Fresh.{new-IsValid}
use xdpsock.Xsk.Tx.Packets.{IsStocked}
use xdpsock.Xsk.Rx.{XskRx}
use xdpsock.Xsk.Rx.Frames.{FrameAt}
use xdpsock.Xsk.Rx.Valid as RxValid
use xdpsock.Xsk.Rx.InOrder.{InOrder}
use xdpsock.Xsk.Halves.{TxApart}
use xdpsock.Tests.Toy.{World, toy, took, tx_reserve_cases, fill_law, rx_law}
use xdpsock.Tests.Toy.Sending.{contract}
use xdpsock.Tests.Toy.Receiving.{rx_contract, fill_contract, fifo}
use xdpsock.Tests.Toy.History.{history}
use xdpsock.Tests.Tx.{tx_q, comp_q}

stores_keep_rx :
    (idx : ℕ) (es : List Desc) (w : World)
    → ((stores (toy.tx_ring) idx es w).fills ≡ w.fills)
      × ((stores (toy.tx_ring) idx es w).queue ≡ w.queue)
stores_keep_rx idx [] w = (refl, refl)
stores_keep_rx idx (e ∷ es) w = stores_keep_rx (add32 idx 1) es (toy.tx_ring.store idx e w)

took_keeps : (n : ℕ) (w : World) → ((took n w).fills ≡ w.fills) × ((took n w).queue ≡ w.queue)
took_keeps zero w = (refl, refl)
took_keeps (suc n) w = (refl, refl)

pub tx_apart : TxApart toy 4 fill_law rx_law rx_contract fifo 4
unfolding rx_contract fill_contract fifo stores_keep_rx took_keeps
tx_apart = record {
  granted = λ n es w len all. elim (tx_reserve_cases n w) [
    | inl e ↦ rw e (record {
      lent = λ a. rw (stores_keep_rx _ es w).0 refl;
      order = (stores_keep_rx _ es w).1;
    })
    | inr (b, q, e) ↦ rw e (record {
      lent = λ a. rw (stores_keep_rx 0 es (record w { busy = b })).0 refl;
      order = (stores_keep_rx 0 es (record w { busy = b })).1;
    })
  ];
  refused = λ n w none_free. elim (tx_reserve_cases n w) [
    | inl e ↦ rw e (record { lent = λ a. refl; order = refl })
    | inr (b, q, e) ↦ rw e (record { lent = λ a. refl; order = refl })
  ];
  completed = λ n m. record {
    lent = λ a. rw (took_keeps _ (record m.world { late = false })).0 refl;
    order = (took_keeps _ (record m.world { late = false })).1;
    bytes = λ p a b low lo le hi free. refl;
    mapped = refl;
  };
  sent = λ fd m. record {
    lent = λ a. refl;
    order = refl;
    bytes = λ p a b low lo le hi free. refl;
    mapped = refl;
  };
}

abbrev first : Frame
first = record { addr = 17; len = 2; options = 0; mtu = 4; status = FrameStatus.filled }

abbrev second : Frame
second = record { addr = 20; len = 0; options = 0; mtu = 4; status = FrameStatus.free }

abbrev none_yet : Desc
none_yet = record { addr = 0; len = 0; options = 0 }

abbrev pub tx0 : XskTx
tx0 = Tx.new tx_q comp_q (cut_frames 4 4 0 4) 4 1

abbrev pub rx0 : XskRx
rx0 = record {
  fill_q = record { size = 4 };
  rx_q = record { fd = new_fd 7 };
  rx_frames = first ∷ second ∷ [];
  filled_frames = none_yet ∷ none_yet ∷ [];
  processed_frames = [];
  rx_frame_offset = 16;
  n_frames_to_be_filled = 1;
  frame_size = 4;
  rx_cursor = 0;
  poll_ms_timeout = 0;
  stats = record { pkts_rx = 1; pkts_rx_delivered = 0 };
}

abbrev pub m0 : Machine World
m0 = record {
  mem = replicate 16 0 ++ (30 ∷ 31 ∷ 32 ∷ 33 ∷ 40 ∷ 41 ∷ 42 ∷ 43 ∷ []);
  world = record {
    fill_slots = λ i. 0;
    fill_tail = 0;
    tx_slots = λ i. record { addr = 0; len = 0; options = 0 };
    tx_tail = 0;
    sent = [];
    late = false;
    busy = 1;
    fills = 5 ∷ [];
    handed = [];
    queue = 5 ∷ [];
  };
}

pub tx0-IsValid : TxValid.IsValid contract 4 tx0 m0
unfolding contract
tx0-IsValid =
    new-IsValid toy contract m0 tx_q comp_q 4 4 4 1 (λ a. refl) (omega arith) (omega arith)
      (omega arith) (omega arith) (omega arith) (omega arith) (omega arith)

pub tx0-IsStocked : IsStocked (history.area) tx0
unfolding history Tx.new cut_frames
tx0-IsStocked = record { room = omega arith; below = tt }

rx0-FrameAt :
    (j : ℕ) (f : Frame)
    → get_elem? rx0.rx_frames j ≡ some f
    → FrameAt 4 4 (rx_contract.fill.lent m0.world) j f
unfolding rx_contract fill_contract
rx0-FrameAt zero f h =
    rw (sym (some-injective _ _ h))
      (record { placed = refl; agrees = inl (refl, refl, omega arith) })
rx0-FrameAt (suc zero) f h =
    rw (sym (some-injective _ _ h)) (record { placed = refl; agrees = inr (refl, refl) })
rx0-FrameAt (suc (suc j)) f h = cc

pub rx0-IsValid : RxValid.IsValid rx_contract rx0 m0
unfolding rx_contract fill_contract
rx0-IsValid = record {
  size = refl;
  base = 4;
  offset = refl;
  area = record { size_pos = omega arith; fits = omega arith; inside = omega arith };
  buffer = refl;
  cursor_in = omega arith;
  clear = refl;
  frames = record { each = rx0-FrameAt; owned = λ a held. (1, omega arith, ground (arith, held)) };
  counted = refl;
  accounted = refl;
  ring_pos = omega arith;
}

pub rx0-InOrder : InOrder fifo rx0 m0 ((31 ∷ 32 ∷ []) ∷ [])
unfolding fifo
rx0-InOrder = record {
  waiting = first ∷ [];
  number = refl;
  window = (refl, refl, tt);
  order = refl;
  contents = refl;
}
