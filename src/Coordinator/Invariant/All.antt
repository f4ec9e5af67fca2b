-- ===== src/Coordinator/Invariant/All.antt =====
-- The invariants together: they hold when the call enters its loop, and every step keeps them.
use src_move.Common.{ℕ, ◌≤◌, ◌≡◌, refl, List, ◌∷◌, arith}
use src_move.Common.Int.{ℤ, to_ℕ}
use src_move.Common.Counting.{total-eq-zero}
use src_move.Common.Dict.{count_key}
use src_move.Contracts.{PairWorkItem}
use src_move.Coordinator.State.{State, Limits, opening, MainPc, finished, failed}
use src_move.Coordinator.Publisher.{MainStep}
use src_move.Coordinator.System.{initial, Step, worker, caller, Reach, here, next}
use src_move.Coordinator.Admission.{Entered}
use src_move.Coordinator.Invariant.Slots.{Slots, holds_slot, worker-Slots, main-Slots, FreshNext}
use src_move.Coordinator.Invariant.Items.{Items, worker-Items}
use src_move.Coordinator.Invariant.ItemsMain.{main-Items}
use src_move.Coordinator.Invariant.Conservation.{Conserved, with_worker, worker-Conserved}
use src_move.Coordinator.Invariant.ConservationMain.{main-Conserved, arrival_fresh}
use src_move.Coordinator.Invariant.Queue.{Queue, worker-Queue, main-Queue}
use src_move.Coordinator.Invariant.Publication.{Publication, worker-Publication}
use src_move.Coordinator.Invariant.Ending.{
  Ending, Numbered, worker-Ending, main-Ending, worker-Numbered, main-Numbered,
}
use src_move.Coordinator.Invariant.PublicationMain.{main-Publication}

pub record Invariant (items : List PairWorkItem) (first : ℕ) (limits : Limits) (s : State)
    : Type 0 where
  pub slots_inv : Slots limits s
  pub items_inv : Items items first s
  pub conserved : (q : ℕ) → Conserved limits.worker_count first q s
  pub queue_inv : Queue limits s
  pub publication : Publication items first s
  pub ending : Ending limits s
  pub numbered : Numbered items first s.submitted

module _ (limits : Limits) (item : PairWorkItem) (rest : List PairWorkItem) where
  initial-Slots : (first : ℕ) → Slots limits (initial limits first item rest)
  unfolding initial
  initial-Slots first = record {
    accounted =
        omega (arith, total-eq-zero holds_slot limits.worker_count (λ i. opening) (λ i h. refl));
    counted = λ h. refl;
    peak = omega arith;
  }

  initial-Items :
      (first : ℕ)
      → item.sequence ≡ first
      → Items (item ∷ rest) first (initial limits first item rest)
  unfolding initial
  initial-Items first e = record {
    input = refl;
    expected = omega arith;
    due = λ h. e;
    offered = tt;
    ended = λ h. cc;
    queued = tt;
    results = tt;
    held = λ i. tt;
    kept = tt;
    hand = tt;
  }

  initial-Conserved :
      (first q : ℕ) → Conserved limits.worker_count first q (initial limits first item rest)
  unfolding initial count_key
  initial-Conserved first q alive =
      omega (arith, total-eq-zero (with_worker q) limits.worker_count (λ i. opening) (λ i h. refl))

  initial-Publication :
      (first : ℕ) → Publication (item ∷ rest) first (initial limits first item rest)
  unfolding initial
  initial-Publication first = record {
    position = omega arith;
    tallied = λ h. refl;
    logged = refl;
    log_size = λ h. refl;
    acked = refl;
    ack_size = λ h. refl;
    behind = omega arith;
    complete = λ h. cc;
  }

  pub initial-Invariant :
      (first : ℕ)
      → item.sequence ≡ first
      → Invariant (item ∷ rest) first limits (initial limits first item rest)
  initial-Invariant first e = record {
    slots_inv = initial-Slots first;
    items_inv = initial-Items first e;
    conserved = initial-Conserved first;
    queue_inv = unfold initial in record { within = omega arith; queue_peak = omega arith };
    publication = initial-Publication first;
    ending = unfold initial in record { emptied = tt; stopped = tt };
    numbered = unfold initial in λ k item' lt e. elim lt [ ];
  }

module _ (items : List PairWorkItem) (first : ℕ) {limits : Limits} {s : State}
    (inv : Invariant items first limits s) where
  begun : first ≤ s.next_publication
  begun = omega (arith, inv.publication.position)

  fresh_next : FreshNext s
  fresh_next at (failed item e) rest q = tt
  fresh_next at (finished item o) rest q =
      arrival_fresh items first limits.worker_count inv.items_inv begun inv.conserved item o rest at
        q

  main-Invariant :
      {pc : MainPc} {t : State}
      → MainStep limits s pc t
      → s.main ≡ pc
      → Invariant items first limits t
  main-Invariant st at = record {
    slots_inv = main-Slots inv.slots_inv st at fresh_next;
    items_inv = main-Items items first inv.items_inv st at;
    conserved = λ q.
        main-Conserved items first limits.worker_count inv.items_inv begun inv.conserved q st at;
    queue_inv = main-Queue inv.queue_inv st;
    publication = main-Publication items first inv.items_inv inv.publication st at fresh_next;
    ending = main-Ending inv.ending st at;
    numbered = main-Numbered items first inv.items_inv inv.numbered st at;
  }

  pub Step-Invariant : {t : State} → Step limits s t → Invariant items first limits t
  Step-Invariant (worker i lt st) = record {
    slots_inv = worker-Slots lt inv.slots_inv st refl;
    items_inv = worker-Items items first inv.items_inv st refl;
    conserved = λ q. worker-Conserved first q lt (inv.conserved q) st refl;
    queue_inv = worker-Queue inv.queue_inv st;
    publication = worker-Publication items first inv.publication st;
    ending = worker-Ending lt inv.ending st refl;
    numbered = worker-Numbered items first st inv.numbered;
  }
  Step-Invariant (caller st) = main-Invariant st refl

-- Every state that a call can reach from its start.
pub reach-Invariant :
    {items : List PairWorkItem} {first : ℤ} {limits : Limits} {start s : State}
    → Entered items first limits start
    → Reach limits start s
    → Invariant items (to_ℕ first) limits s
reach-Invariant {items} {first} {limits} {start} entered here =
    rw (entered.input, entered.starts)
      (initial-Invariant limits entered.item entered.rest (to_ℕ first) entered.first_ok)
reach-Invariant {items} {first} entered (next r st) =
    Step-Invariant items (to_ℕ first) (reach-Invariant entered r) st
