-- ===== src/Spsc/Access.antt =====
-- `spsc_write`, `spsc_read` and `spsc_peek` of kernel/structure.c.
use vaios.Base.{ℕ, ◌-◌, ◌%◌, ltb, leb, ◌==◌, ◌||◌, not, if◌then◌else◌}
use vaios.Machine.{Memory, add32}
use vaios.Spsc.Fifo.{
  SpscPolicy, drop, overwrite, SpscFifo, descriptor_sane, clamp, spsc_available, spsc_space,
  spsc_skip,
}
use vaios.Spsc.Copy.{copy_in, copy_out}

-- What each policy makes of `count` items when only `avail` fit: the number that is stored, and the
-- FIFO once the overwritten items are skipped.
unfoldable pub overflowed : SpscPolicy → ℕ → ℕ → SpscFifo → ℕ × SpscFifo
overflowed drop count avail f = (avail, record f { drops = add32 f.drops (count - avail) })
overflowed overwrite count avail f =
    let excess = count - avail in
    let to_overwrite = if leb f.capacity excess then f.capacity - 1 else excess in
    let counted = record f { drops = add32 f.drops to_overwrite } in
    (if leb f.capacity count then f.capacity - 1 else count, (spsc_skip to_overwrite counted).1)

unfoldable pub admit : ℕ → SpscFifo → ℕ × SpscFifo
admit count f =
    let avail = spsc_space f in
    if ltb avail count then overflowed f.policy count avail f else (count, f)

-- `if (fill > f->peak) f->peak = fill;`
unfoldable pub note_peak : SpscFifo → SpscFifo
note_peak f =
    let fill = spsc_available f in record f { peak = if ltb f.peak fill then fill else f.peak }

-- The copy of `count` admitted items and the step of `head`.
unfoldable pub store : ℕ → ℕ → SpscFifo → Memory → ℕ × SpscFifo × Memory
unfolding note_peak
store items count f m =
    let head = clamp f.capacity f.head in
    if count == 0 then (0, f, m) else (
      count,
      note_peak (record f { head = add32 head count % f.capacity }),
      copy_in f head items count m,
    )

-- `spsc_write`
unfoldable pub spsc_write : ℕ → ℕ → SpscFifo → Memory → ℕ × SpscFifo × Memory
spsc_write items count f m =
    if count == 0 || not (descriptor_sane f)
    then (0, f, m)
    else let (taken, f') = admit count f in store items taken f' m

-- The number that a read or peek of `count` items gets.
unfoldable pub obtainable : ℕ → SpscFifo → ℕ
obtainable count f = let avail = spsc_available f in if ltb avail count then avail else count

-- `spsc_read`
unfoldable pub spsc_read : ℕ → ℕ → SpscFifo → Memory → ℕ × SpscFifo × Memory
unfolding obtainable
spsc_read out count f m =
    let got = obtainable count f in
    let tail = clamp f.capacity f.tail in
    if not (descriptor_sane f) || got == 0
    then (0, f, m)
    else (got, record f { tail = add32 tail got % f.capacity }, copy_out f tail out got m)

-- `spsc_peek`
unfoldable pub spsc_peek : ℕ → ℕ → SpscFifo → Memory → ℕ × Memory
unfolding obtainable
spsc_peek out count f m =
    let got = obtainable count f in
    let tail = clamp f.capacity f.tail in
    if not (descriptor_sane f) || got == 0 then (0, m) else (got, copy_out f tail out got m)
