-- ===== src/Mpmc.antt =====
-- kernel/structure.c, the multi-producer multi-consumer queue (`mpmc_*`). The element storage is in
-- the byte memory at `buffer`. Of the two counting semaphores and of the two binary ones that a
-- registered queue wakes, the counts are kept: `none` for a binary semaphore that is NULL. Ipc models
-- the semaphores and the mutex themselves. The functions below are the calls of one task at a time,
-- which finds the mutex free; Tasks is about the calls of several tasks.
pub mod Ring
pub mod Locked
pub mod Calls
pub mod Tasks
pub mod Permits
pub mod Trace
mod Examples
use vaios.Base.{
  ℕ, zero, suc, ◌+◌, ◌*◌, ◌%◌, Bool, true, false, ltb, leb, ◌==◌, if◌then◌else◌, Option, none, some,
}
use vaios.Machine.{Memory, word_mod, add32, sub32, v_memcpy}

-- `mpmc_policy_t`
pub data MpmcPolicy : Type 0 where
  mpmc_drop mpmc_overwrite : MpmcPolicy

-- `mpmc_queue_t`
pub record Mpmc : Type 0 where
  pub buffer : ℕ
  pub capacity : ℕ
  pub elem_size : ℕ
  pub policy : MpmcPolicy
  pub head : ℕ
  pub tail : ℕ
  pub count : ℕ
  pub not_empty : ℕ
  pub not_full : ℕ
  pub fd_wake_rd : Option ℕ
  pub fd_wake_wr : Option ℕ

-- What a call comes to: `true`, `false`, or a wait on a semaphore for the time that was given.
pub data Answer : Type 0 where
  passed refused waits : Answer

-- `mpmc_init`, which leaves the wake semaphores alone
abbrev pub mpmc_init : ℕ → ℕ → ℕ → Mpmc → Mpmc
mpmc_init buffer capacity elem_size q = record q {
  buffer = buffer;
  capacity = capacity;
  elem_size = elem_size;
  head = 0;
  tail = 0;
  count = 0;
  policy = MpmcPolicy.mpmc_drop;
  not_empty = 0;
  not_full = capacity;
}

-- `mpmc_set_policy`
abbrev pub mpmc_set_policy : MpmcPolicy → Mpmc → Mpmc
mpmc_set_policy policy q = record q { policy = policy }

-- A take that does not wait; `none` is a failure.
abbrev pub take_permit : ℕ → Option ℕ
take_permit zero = none
take_permit (suc n) = some n

-- A give, up to the limit of the semaphore.
abbrev pub give_permit : ℕ → ℕ → ℕ
give_permit limit n = if ltb n limit then suc n else n

-- A give to a binary semaphore that may be NULL.
abbrev pub wake : Option ℕ → Option ℕ
wake none = none
wake (some n) = some (give_permit 1 n)

-- `(uint8_t *)q->buffer + i * q->elem_size`
abbrev pub cell : Mpmc → ℕ → ℕ
cell q i = add32 q.buffer (i * q.elem_size % word_mod)

-- What `mpmc_push_timeout` does under the lock with a free slot.
unfoldable pub store_item : ℕ → Mpmc → Memory → Mpmc × Memory
store_item item q m = (
  record q { head = add32 q.head 1 % q.capacity; count = add32 q.count 1 },
  v_memcpy (cell q q.head) item q.elem_size m,
)

-- What it does under the lock to a full queue that overwrites.
unfoldable pub overwrite_oldest : ℕ → Mpmc → Memory → Mpmc × Memory
overwrite_oldest item q m = (
  record q { head = add32 q.head 1 % q.capacity; tail = add32 q.tail 1 % q.capacity },
  v_memcpy (cell q q.head) item q.elem_size m,
)

-- What `mpmc_pop_timeout` does under the lock.
unfoldable pub remove_item : ℕ → Mpmc → Memory → Mpmc × Memory
remove_item out q m =
    let next_tail = add32 q.tail 1 in
    (
      record q {
        tail = if leb q.capacity next_tail then 0 else next_tail;
        count = sub32 q.count 1;
      },
      v_memcpy out (cell q q.tail) q.elem_size m,
    )

-- The gives at the end of a push, and at the end of a pop.
abbrev pub give_item : Mpmc → Mpmc
give_item q = record q { not_empty = give_permit q.capacity q.not_empty }

abbrev pub wake_reader : Mpmc → Mpmc
wake_reader q = record q { fd_wake_rd = wake q.fd_wake_rd }

abbrev pub tell_item : Mpmc → Mpmc
tell_item q = wake_reader (give_item q)

abbrev pub give_slot : Mpmc → Mpmc
give_slot q = record q { not_full = give_permit q.capacity q.not_full }

abbrev pub wake_writer : Mpmc → Mpmc
wake_writer q = record q { fd_wake_wr = wake q.fd_wake_wr }

abbrev pub tell_slot : Mpmc → Mpmc
tell_slot q = wake_writer (give_slot q)

abbrev Result : Type 0
Result = Answer × Mpmc × Memory

-- The end of a push that has taken a slot.
abbrev push_with : ℕ → Mpmc → Memory → Result
push_with item q m = let (q', m') = store_item item q m in (passed, tell_item q', m')

-- The two further takes of a push that found the queue not full after all.
abbrev push_again : Option ℕ → ℕ → Mpmc → Memory → Result
push_again none item q m = (waits, q, m)
push_again (some n) item q m = push_with item (record q { not_full = n }) m

-- A push without a free slot.
abbrev push_full : MpmcPolicy → ℕ → ℕ → Mpmc → Memory → Result
push_full mpmc_drop item timeout q m = if timeout == 0 then (refused, q, m) else (waits, q, m)
push_full mpmc_overwrite item timeout q m =
    if q.capacity == 0
    then (refused, q, m)
    else if q.count == q.capacity
    then (let (q', m') = overwrite_oldest item q m in (passed, q', m'))
    else push_again (take_permit q.not_full) item q m

abbrev push_taking : Option ℕ → ℕ → ℕ → Mpmc → Memory → Result
push_taking none item timeout q m = push_full q.policy item timeout q m
push_taking (some n) item timeout q m = push_with item (record q { not_full = n }) m

-- `mpmc_push_timeout`
unfoldable pub mpmc_push_timeout : ℕ → ℕ → Mpmc → Memory → Result
mpmc_push_timeout item timeout q m = push_taking (take_permit q.not_full) item timeout q m

abbrev pop_taking : Option ℕ → ℕ → ℕ → Mpmc → Memory → Result
pop_taking none out timeout q m = if timeout == 0 then (refused, q, m) else (waits, q, m)
pop_taking (some n) out timeout q m =
    let (q', m') = remove_item out (record q { not_empty = n }) m in (passed, tell_slot q', m')

-- `mpmc_pop_timeout`
unfoldable pub mpmc_pop_timeout : ℕ → ℕ → Mpmc → Memory → Result
mpmc_pop_timeout out timeout q m = pop_taking (take_permit q.not_empty) out timeout q m

-- `mpmc_push` and `mpmc_pop`, with 0xFFFFFFFF
pub mpmc_push : ℕ → Mpmc → Memory → Result
mpmc_push item q m = mpmc_push_timeout item 4294967295 q m

pub mpmc_pop : ℕ → Mpmc → Memory → Result
mpmc_pop out q m = mpmc_pop_timeout out 4294967295 q m

-- `mpmc_try_push` and `mpmc_try_pop`
abbrev pub mpmc_try_push : ℕ → Mpmc → Memory → Result
mpmc_try_push item q m = mpmc_push_timeout item 0 q m

abbrev pub mpmc_try_pop : ℕ → Mpmc → Memory → Result
mpmc_try_pop out q m = mpmc_pop_timeout out 0 q m

-- The loop of `mpmc_push_bulk` from item `pushed` on, with `left` items to go.
unfoldable pub push_bulk_from : ℕ → ℕ → ℕ → Mpmc → Memory → ℕ × Mpmc × Memory
push_bulk_from zero pushed items q m = (pushed, q, m)
push_bulk_from (suc left) pushed items q m =
    let out = mpmc_try_push (items + pushed * q.elem_size) q m in
    elim out.0 [
      | passed ↦ push_bulk_from left (pushed + 1) items out.1 out.2
      | refused ↦ (pushed, out.1, out.2)
      | waits ↦ (pushed, out.1, out.2)
    ]

-- `mpmc_push_bulk`
abbrev pub mpmc_push_bulk : ℕ → ℕ → Mpmc → Memory → ℕ × Mpmc × Memory
mpmc_push_bulk items count q m = push_bulk_from count 0 items q m

-- The loop of `mpmc_pop_bulk`, likewise.
unfoldable pub pop_bulk_from : ℕ → ℕ → ℕ → Mpmc → Memory → ℕ × Mpmc × Memory
pop_bulk_from zero popped items q m = (popped, q, m)
pop_bulk_from (suc left) popped items q m =
    let out = mpmc_try_pop (items + popped * q.elem_size) q m in
    elim out.0 [
      | passed ↦ pop_bulk_from left (popped + 1) items out.1 out.2
      | refused ↦ (popped, out.1, out.2)
      | waits ↦ (popped, out.1, out.2)
    ]

-- `mpmc_pop_bulk`
abbrev pub mpmc_pop_bulk : ℕ → ℕ → Mpmc → Memory → ℕ × Mpmc × Memory
mpmc_pop_bulk items max_count q m = pop_bulk_from max_count 0 items q m

-- `mpmc_size`, `mpmc_capacity`, `mpmc_is_empty` and `mpmc_is_full`
pub mpmc_size : Mpmc → ℕ
mpmc_size q = q.count

pub mpmc_capacity : Mpmc → ℕ
mpmc_capacity q = q.capacity

pub mpmc_is_empty : Mpmc → Bool
mpmc_is_empty q = q.count == 0

pub mpmc_is_full : Mpmc → Bool
mpmc_is_full q = q.count == q.capacity

-- `mpmc_peek`
unfoldable pub mpmc_peek : ℕ → Mpmc → Memory → Bool × Memory
mpmc_peek item q m =
    if q.count == 0 then (false, m) else (true, v_memcpy item (cell q q.tail) q.elem_size m)

-- `while (v_semaphore_take(s, 0) == VA_PASS);` on fuel; `none` is out of fuel.
unfoldable pub drain : ℕ → ℕ → Option ℕ
drain zero n = none
drain (suc fuel) n = elim (take_permit n) [ none ↦ some n | some k ↦ drain fuel k ]

-- `n` gives in a row
unfoldable pub give_times : ℕ → ℕ → ℕ → ℕ
give_times zero limit s = s
give_times (suc n) limit s = give_times n limit (give_permit limit s)

-- `mpmc_reset`
unfoldable pub mpmc_reset : ℕ → Mpmc → Option Mpmc
mpmc_reset fuel q = elim (drain fuel q.not_empty) [
  | none ↦ none
  | some empty ↦ elim (drain fuel q.not_full) [
    | none ↦ none
    | some left ↦ some (record q {
      head = 0;
      tail = 0;
      count = 0;
      not_empty = empty;
      not_full = give_times q.capacity q.capacity left;
    })
  ]
]
