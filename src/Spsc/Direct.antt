-- ===== src/Spsc/Direct.antt =====
-- The calls of kernel/structure.c that let the caller fill or empty the storage in place.
pub mod Laws
use vaios.Base.{ℕ, ◌+◌, ◌-◌, ◌*◌, ltb, leb, ◌==◌, ◌&&◌, if◌then◌else◌}
use vaios.Machine.{add32, sub32}
use vaios.Spsc.Fifo.{SpscFifo}
use vaios.Spsc.Access.{note_peak}

-- The slots that can be filled in one run.
unfoldable pub writable : SpscFifo → ℕ
writable f =
    let free = sub32 f.capacity f.head in
    if leb f.tail f.head
    then if f.tail == 0 && ltb 0 free then free - 1 else free
    else f.tail - f.head - 1

-- `spsc_write_ptr`: the address of the run, 0 for NULL, and its length
unfoldable pub spsc_write_ptr : SpscFifo → ℕ × ℕ
unfolding writable
spsc_write_ptr f =
    let free = writable f in (if free == 0 then 0 else f.buffer + f.head * f.elem_size, free)

-- `spsc_commit_write`
unfoldable pub spsc_commit_write : ℕ → SpscFifo → SpscFifo
spsc_commit_write count f =
    let new_head = add32 f.head count in
    if count == 0
    then f
    else note_peak
        (record f { head = if leb f.capacity new_head then new_head - f.capacity else new_head })

-- The slots that can be read in one run.
unfoldable pub readable : SpscFifo → ℕ
readable f = if leb f.tail f.head then f.head - f.tail else sub32 f.capacity f.tail

-- `spsc_read_ptr`
unfoldable pub spsc_read_ptr : SpscFifo → ℕ × ℕ
unfolding readable
spsc_read_ptr f =
    let avail = readable f in (if avail == 0 then 0 else f.buffer + f.tail * f.elem_size, avail)

-- `spsc_commit_read`
unfoldable pub spsc_commit_read : ℕ → SpscFifo → SpscFifo
spsc_commit_read count f =
    let new_tail = add32 f.tail count in
    if count == 0
    then f
    else record f { tail = if leb f.capacity new_tail then new_tail - f.capacity else new_tail }
