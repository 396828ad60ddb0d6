-- ===== src/Spsc/Examples.antt =====
-- The FIFO of kernel/structure.c with four slots of two bytes, two of them taken, at the
-- wrap-around.
use vaios.Base.{◌*◌, ◌-◌, ◌≡◌, refl, inl, ◌++◌, min, drop, arith}
use vaios.Machine.{Memory, v_memcpy}
use vaios.Spsc.Fifo.{SpscPolicy, SpscFifo, IsValid, spsc_available, spsc_space}
use vaios.Spsc.Access.{spsc_write, spsc_read}
use vaios.Spsc.Queue.{contents, elements}
use vaios.Spsc.Write.{Stored, spsc_write-drop}
use vaios.Spsc.Read.{Read, spsc_read_lem}
use vaios.Spsc.Overwrite.{spsc_write-overwrite}
use vaios.Spsc.Direct.{spsc_write_ptr, spsc_commit_write}
use vaios.Spsc.Direct.Laws.{spsc_commit_write-write}

abbrev ring : SpscPolicy → SpscFifo
ring policy = record {
  buffer = 16;
  capacity = 4;
  elem_size = 2;
  head = 1;
  tail = 3;
  policy = policy;
  peak = 2;
  drops = 0;
}

abbrev memory : Memory
memory a = a

ring-IsValid : (policy : SpscPolicy) → IsValid (ring policy)
ring-IsValid policy = record {
  placed = omega arith;
  some_capacity = omega arith;
  small_capacity = omega arith;
  some_size = omega arith;
  small_size = omega arith;
  head_in = omega arith;
  tail_in = omega arith;
}

spsc_write-drop_example :
    Stored
      (ring SpscPolicy.drop)
      memory
      100
      (min 3 (spsc_space (ring SpscPolicy.drop)))
      (spsc_write 100 3 (ring SpscPolicy.drop) memory)
spsc_write-drop_example =
    spsc_write-drop 100 3 memory (ring-IsValid SpscPolicy.drop) refl (inl (omega arith))

spsc_write-overwrite_example :
    let f = ring SpscPolicy.overwrite in
    let n = min 3 (f.capacity - 1) in
    let (taken, f', m') = spsc_write 100 3 f memory in
    (taken ≡ n)
    × (contents f' m'
        ≡ drop (n - spsc_space f) (contents f memory) ++ elements memory 100 f.elem_size n)
    × IsValid f'
spsc_write-overwrite_example =
    spsc_write-overwrite 100 3 memory (ring-IsValid SpscPolicy.overwrite) refl (inl (omega arith))

spsc_read_lem_example :
    Read
      (ring SpscPolicy.drop)
      memory
      100
      (min 5 (spsc_available (ring SpscPolicy.drop)))
      (spsc_read 100 5 (ring SpscPolicy.drop) memory)
spsc_read_lem_example =
    spsc_read_lem 100 5 memory (ring-IsValid SpscPolicy.drop) (inl (omega arith))

-- A FIFO whose head was overwritten.
abbrev corrupted : SpscFifo
corrupted = record (ring SpscPolicy.overwrite) { head = 3000000001 }

-- One slot can be written in place here, and one read.
spsc_commit_write-write_example :
    let f = ring SpscPolicy.drop in
    spsc_write 100 1 f memory
    ≡ (1, spsc_commit_write 1 f, v_memcpy (spsc_write_ptr f).0 100 (1 * f.elem_size) memory)
unfolding spsc_write_ptr
spsc_commit_write-write_example =
    spsc_commit_write-write (ring-IsValid SpscPolicy.drop) 100 1 memory (omega arith) (omega arith)
