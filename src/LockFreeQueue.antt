-- ===== src/LockFreeQueue.antt =====
-- include/ate/lockfree_queue.hpp: the bounded ring of slots with sequence numbers. This file has
-- the constructor and the two operations, one shared access at a time; System interleaves the
-- threads. A `size_t` is a number below 2 ^ 64, and its sums are taken modulo 2 ^ 64.
pub mod Capacity
pub mod System
pub mod Invariant
pub mod Slots
pub mod PushMoves
pub mod PopMoves
pub mod Reachable
pub mod Progress
pub mod PopProgress
pub mod Safety
pub mod Log
pub mod Delivery
pub mod Alone
pub mod Bounded
pub mod Fifo
pub mod Size
pub mod Solo
pub mod Sequential
pub mod Retries
pub mod Agreement
pub mod Calls
mod Tests
use Prim.Native.Nat.{bit_and, bit_or, compare, Ordering}
use async_task_engine.Common.{
  ℕ, zero, suc, ◌+◌, ◌-◌, ◌/◌, ◌%◌, ◌^◌, Bool, true, false, not, ◌&&◌, Option, none, some, update,
  ltb, ◌==◌, leb, if◌then◌else◌,
}

abbrev pub word : ℕ → ℕ
word n = n % 2 ^ 64

-- `n |= n >> k`
abbrev pub smear : ℕ → ℕ → ℕ
smear k n = bit_or n (n / 2 ^ k)

unfoldable pub round_up_pow2 : ℕ → ℕ
round_up_pow2 n =
    if ltb n 2
    then 2
    else word (smear 32 (smear 16 (smear 8 (smear 4 (smear 2 (smear 1 (n - 1)))))) + 1)

-- The constants of a queue.
pub record Shape : Type 0 where
  pub capacity : ℕ
  pub mask : ℕ

-- A capacity of 0 makes the mask wrap.
unfoldable pub shape : ℕ → Shape
shape min_capacity =
    let capacity = round_up_pow2 min_capacity in
    record { capacity = capacity; mask = word (capacity + (2 ^ 64 - 1)) }

-- The mutable part. `sequence` and `value` are the two fields of a `Slot`, by index.
pub record Ring : Type 0 where
  pub sequence : ℕ → ℕ
  pub value : ℕ → ℕ
  pub enqueue_pos : ℕ
  pub dequeue_pos : ℕ

-- The loop of the constructor over a buffer of value-initialised slots.
unfoldable pub fill : ℕ → (ℕ → ℕ) → ℕ → ℕ
fill zero sequence = sequence
fill (suc i) sequence = update (fill i sequence) i i

unfoldable pub create : ℕ → Ring
unfolding fill
create capacity = record {
  sequence = fill capacity (λ _. 0);
  value = λ _. 0;
  enqueue_pos = 0;
  dequeue_pos = 0;
}

-- From the values of the two loads, of `enqueue_pos_` first.
unfoldable pub size_approx : ℕ → ℕ → ℕ
size_approx enq deq = if leb deq enq then enq - deq else 0

-- The sign of the difference of two words that are cast to `ptrdiff_t`.
abbrev pub signed_compare : ℕ → ℕ → Ordering
signed_compare a b = compare (word (a + 2 ^ 63)) (word (b + 2 ^ 63))

-- Where a thread stands, with the locals that are live there.
pub data Pc : Type 0 where
  idle : Pc
  push_load : ℕ → Pc  -- before the load of `enqueue_pos_`, with the value
  push_seq : ℕ → ℕ → Pc  -- value and pos, before the load of the slot's sequence
  push_cas : ℕ → ℕ → Pc  -- `diff == 0`
  push_write : ℕ → ℕ → Pc  -- has won the exchange
  push_release : ℕ → Pc
  pushed : Bool → Pc
  pop_load : Pc
  pop_seq : ℕ → Pc
  pop_cas : ℕ → Pc
  pop_read : ℕ → Pc
  pop_release : ℕ → ℕ → Pc  -- pos and the value moved out
  popped : Option ℕ → Pc

-- The branches on the sign of `diff`.
unfoldable pub push_branch : ℕ → ℕ → Ordering → Pc
push_branch v pos Ordering.eq = push_cas v pos
push_branch v pos Ordering.lt = pushed false
push_branch v pos Ordering.gt = push_load v

unfoldable pub pop_branch : ℕ → Ordering → Pc
pop_branch pos Ordering.eq = pop_cas pos
pop_branch pos Ordering.lt = popped none
pop_branch pos Ordering.gt = pop_load

-- What a step makes of the ring and the thread.
pub record Turn : Type 0 where
  pub ring : Ring
  pub next : Pc

module _ (s : Shape) where
  unfoldable pub index : ℕ → ℕ
  index pos = bit_and pos s.mask

  -- One step of `try_push` or `try_pop`. `spurious`: a weak exchange fails for no reason.
  unfoldable pub turn : Bool → Ring → Pc → Turn
  unfolding push_branch pop_branch
  turn spurious r idle = record { ring = r; next = idle }
  turn spurious r (push_load v) = record { ring = r; next = push_seq v r.enqueue_pos }
  turn spurious r (push_seq v pos) = record {
    ring = r;
    next = push_branch v pos (signed_compare (r.sequence (index pos)) pos);
  }
  turn spurious r (push_cas v pos) =
      if not spurious && r.enqueue_pos == pos
      then record { ring = record r { enqueue_pos = word (pos + 1) }; next = push_write v pos }
      else record { ring = r; next = push_seq v r.enqueue_pos }
  turn spurious r (push_write v pos) = record {
    ring = record r { value = update r.value (index pos) v };
    next = push_release pos;
  }
  turn spurious r (push_release pos) = record {
    ring = record r { sequence = update r.sequence (index pos) (word (pos + 1)) };
    next = pushed true;
  }
  turn spurious r (pushed b) = record { ring = r; next = idle }
  turn spurious r pop_load = record { ring = r; next = pop_seq r.dequeue_pos }
  turn spurious r (pop_seq pos) = record {
    ring = r;
    next = pop_branch pos (signed_compare (r.sequence (index pos)) (word (pos + 1)));
  }
  turn spurious r (pop_cas pos) =
      if not spurious && r.dequeue_pos == pos
      then record { ring = record r { dequeue_pos = word (pos + 1) }; next = pop_read pos }
      else record { ring = r; next = pop_seq r.dequeue_pos }
  turn spurious r (pop_read pos) = record { ring = r; next = pop_release pos (r.value (index pos)) }
  turn spurious r (pop_release pos x) = record {
    ring = record r { sequence = update r.sequence (index pos) (word (pos + s.capacity)) };
    next = popped (some x);
  }
  turn spurious r (popped o) = record { ring = r; next = idle }
