-- ===== src/Spsc/Fifo.antt =====
-- The descriptor of kernel/structure.c's SPSC FIFO: counts, initialisation and policy.
use Prim.Native.Nat.{bit_and}
use vaios.Base.{
  ℕ, ◌+◌, ◌-◌, ◌*◌, ◌/◌, ◌%◌, ◌≤◌, ◌<◌, ◌≡◌, Bool, ltb, leb, ◌==◌, ◌&&◌, not, if◌then◌else◌, arith,
  Option, none, some,
}
use vaios.Machine.{add32, sub32}

pub data SpscPolicy : Type 0 where
  drop overwrite : SpscPolicy

pub record SpscFifo : Type 0 where
  pub buffer : ℕ
  pub capacity : ℕ
  pub elem_size : ℕ
  pub head : ℕ
  pub tail : ℕ
  pub policy : SpscPolicy
  pub peak : ℕ
  pub drops : ℕ

-- `_spsc_descriptor_sane`
abbrev pub descriptor_sane : SpscFifo → Bool
descriptor_sane f =
    not (f.buffer == 0)
    && (ltb 0 f.capacity && leb f.capacity 4096)
    && (ltb 0 f.elem_size && leb f.elem_size 4096)

-- `if (x >= f->capacity) x = x % f->capacity;`, the clamp that every access applies to an index
abbrev pub clamp : ℕ → ℕ → ℕ
clamp capacity x = if leb capacity x then x % capacity else x

-- `addr` rounded up to a multiple of `elem_size`; `none` is the division by zero
unfoldable pub align_up : ℕ → ℕ → Option ℕ
align_up addr elem_size =
    if ltb 0 elem_size && (bit_and elem_size (elem_size - 1) == 0)
    then some (bit_and (add32 addr (elem_size - 1)) (sub32 (sub32 0 1) (elem_size - 1)))
    else if elem_size == 0
    then none
    else some ((sub32 (add32 addr elem_size) 1) / elem_size * elem_size)

-- `spsc_init`
unfoldable pub spsc_init : ℕ → ℕ → ℕ → Option SpscFifo
unfolding align_up
spsc_init buffer capacity elem_size = elim (align_up buffer elem_size) [
  | none ↦ none
  | some aligned_addr ↦
      let offset = sub32 aligned_addr buffer in
      let moved = ltb 0 offset && ltb 0 capacity in
      some (record {
        buffer = if moved then aligned_addr else buffer;
        capacity = if moved then capacity - 1 else capacity;
        elem_size = elem_size;
        head = 0;
        tail = 0;
        policy = SpscPolicy.drop;
        peak = 0;
        drops = 0;
      })
]

-- `spsc_set_policy`
pub spsc_set_policy : SpscPolicy → SpscFifo → SpscFifo
spsc_set_policy policy f = record f { policy = policy }

-- `spsc_available`
unfoldable pub spsc_available : SpscFifo → ℕ
spsc_available f =
    let head = clamp f.capacity f.head in
    let tail = clamp f.capacity f.tail in
    if not (descriptor_sane f)
    then 0
    else if leb tail head
    then head - tail
    else add32 (f.capacity - tail) head

-- `spsc_space`
unfoldable pub spsc_space : SpscFifo → ℕ
spsc_space f =
    let head = clamp f.capacity f.head in
    let tail = clamp f.capacity f.tail in
    let free = if leb tail head then add32 (f.capacity - head) tail else tail - head in
    if not (descriptor_sane f) then 0 else if ltb 0 free then free - 1 else 0

-- `spsc_skip`
unfoldable pub spsc_skip : ℕ → SpscFifo → ℕ × SpscFifo
spsc_skip count f =
    let avail = spsc_available f in
    let taken = if ltb avail count then avail else count in
    if not (descriptor_sane f)
    then (0, f)
    else (taken, record f { tail = add32 f.tail taken % f.capacity })

-- `spsc_reset`
pub spsc_reset : SpscFifo → SpscFifo
spsc_reset f = record f { head = 0; tail = 0 }

-- `spsc_peak` and `spsc_drops`
pub spsc_peak : SpscFifo → ℕ
spsc_peak f = f.peak

pub spsc_drops : SpscFifo → ℕ
spsc_drops f = f.drops

-- A descriptor that passes the sanity test, with both indices in range.
pub record IsValid (f : SpscFifo) : Type 0 where
  pub placed : 0 < f.buffer
  pub some_capacity : 0 < f.capacity
  pub small_capacity : f.capacity ≤ 4096
  pub some_size : 0 < f.elem_size
  pub small_size : f.elem_size ≤ 4096
  pub head_in : f.head < f.capacity
  pub tail_in : f.tail < f.capacity

pub sane : {f : SpscFifo} → IsValid f → descriptor_sane f ≡ Bool.true
sane v = ground arith

-- Whatever the two indices hold, the items and the free slots of a sane descriptor are one fewer
-- than its capacity.
pub spsc_available-add-space :
    (f : SpscFifo)
    → descriptor_sane f ≡ Bool.true
    → spsc_available f + spsc_space f + 1 ≡ f.capacity
unfolding spsc_available spsc_space
spsc_available-add-space f h = ground arith
