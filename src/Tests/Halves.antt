-- ===== src/Tests/Halves.antt =====
-- The small kernel keeps the rings of the receiving half apart from what is sent.
use xdpsock.Prelude.{ℕ, zero, suc, ◌≡◌, refl, List, [], ◌∷◌, add32}
use xdpsock.Kernel.Stores.{stores}
use xdpsock.Socket.Poll.{poll_read}
use xdpsock.Xsk.Halves.{RxApart}
use xdpsock.Tests.Toy.{World, toy, got, tx_law, cons_law}
use xdpsock.Tests.Toy.Sending.{contract}
use xdpsock.Tests.Toy.History.{history}

stores_keep :
    (idx : ℕ) (es : List ℕ) (w : World)
    → ((stores (toy.fill_ring) idx es w).sent ≡ w.sent)
      × ((stores (toy.fill_ring) idx es w).handed ≡ w.handed)
stores_keep idx [] w = (refl, refl)
stores_keep idx (e ∷ es) w = stores_keep (add32 idx 1) es (toy.fill_ring.store idx e w)

got_keeps : (n : ℕ) (w : World) → ((got n w).sent ≡ w.sent) × ((got n w).handed ≡ w.handed)
got_keeps zero w = (refl, refl)
got_keeps (suc n) w = (refl, refl)

pub apart : RxApart toy 4 tx_law cons_law contract history
unfolding contract history stores_keep got_keeps poll_read
apart = record {
  granted = λ n es w len all. record {
    lent = λ a. rw (stores_keep _ es w).0 refl;
    handed = (stores_keep _ es w).1;
  };
  refused = λ n w none_free. record { lent = λ a. refl; handed = refl };
  taken = λ n m. record {
    lent = λ a. rw (got_keeps _ m.world).0 refl;
    handed = (got_keeps _ m.world).1;
    area = refl;
    mapped = refl;
  };
  peeked = λ n m. record { lent = λ a. refl; handed = refl; area = refl; mapped = refl };
  polled = λ fd timeout m. record { lent = λ a. refl; handed = refl; area = refl; mapped = refl };
}
