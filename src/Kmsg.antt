-- ===== src/Kmsg.antt =====
-- The kernel log ring of kernel/utils.c, behind /dev/kmsg: `v_kmsg_append` and `v_kmsg_read`. Each
-- runs in a critical section.
pub mod Last
pub mod Append
pub mod Read
pub mod Examples
use vaios.Base.{ℕ, zero, suc, ◌+◌, ◌%◌, ◌≤◌, ◌<◌, ltb, ◌==◌, if◌then◌else◌, update, tabulate, List}
use vaios.Machine.{Memory, word_mod, add32, sub32}

-- `KMSG_RING_SIZE`
abbrev pub ring_size : ℕ
ring_size = 1024

-- `kmsg_ring`, `kmsg_head` and `kmsg_tail`: the two counts run on, and wrap round with the word.
pub record Kmsg : Type 0 where
  pub ring : ℕ → ℕ
  pub head : ℕ
  pub tail : ℕ

pub record IsValid (k : Kmsg) : Type 0 where
  pub head_word : k.head < word_mod
  pub tail_word : k.tail < word_mod
  pub bounded : sub32 k.head k.tail ≤ ring_size

-- The bytes that a reader gets, the oldest first.
unfoldable pub contents : Kmsg → List ℕ
contents k = tabulate (sub32 k.head k.tail) (λ i. k.ring ((k.tail + i) % ring_size))

-- A round of the loop of `v_kmsg_append`.
unfoldable pub put_byte : ℕ → Kmsg → Kmsg
put_byte byte k =
    let head = add32 k.head 1 in
    record {
      ring = update k.ring (k.head % ring_size) byte;
      head = head;
      tail = if ltb ring_size (sub32 head k.tail) then sub32 head ring_size else k.tail;
    }

-- `v_kmsg_append`
unfoldable pub v_kmsg_append : ℕ → ℕ → Memory → Kmsg → Kmsg
v_kmsg_append buf zero m k = k
v_kmsg_append buf (suc len) m k = v_kmsg_append (suc buf) len m (put_byte (m buf) k)

-- `v_kmsg_read`: the number of bytes, the ring and the memory.
unfoldable pub v_kmsg_read : ℕ → ℕ → Kmsg → Memory → ℕ × Kmsg × Memory
v_kmsg_read out zero k m = (0, k, m)
v_kmsg_read out (suc len) k m =
    let rest =
      v_kmsg_read (suc out) len (record k { tail = add32 k.tail 1 })
        (update m out (k.ring (k.tail % ring_size))) in
    if k.tail == k.head then (0, k, m) else (suc rest.0, rest.1, rest.2)
