-- ===== src/Kmsg/Examples.antt =====
-- The log ring of kernel/utils.c with 1022 bytes, whose head has wrapped round with its word.
use vaios.Base.{◌≡◌, ◌-◌, ◌%◌, ◌++◌, arith}
use vaios.Machine.{Memory, word_mod}
use vaios.Kmsg.{ring_size, Kmsg, IsValid, contents, v_kmsg_append, v_kmsg_read}
use vaios.Kmsg.Last.{last}
use vaios.Kmsg.Append.{bytes, v_kmsg_append_lem}
use vaios.Kmsg.Read.{Read, v_kmsg_read_lem}

abbrev memory : Memory
memory a = a % 256

abbrev log : Kmsg
log = record { ring = λ i. i % 256; head = 2; tail = word_mod - 1020 }

log-IsValid : IsValid log
log-IsValid = record { head_word = omega arith; tail_word = omega arith; bounded = omega arith }

v_kmsg_append_lem_example :
    IsValid (v_kmsg_append 100 5 memory log)
    × (contents (v_kmsg_append 100 5 memory log)
        ≡ last ring_size (contents log ++ bytes memory 100 5))
v_kmsg_append_lem_example = v_kmsg_append_lem 100 5 memory log log-IsValid

v_kmsg_read_lem_example : Read log memory 200 3 (v_kmsg_read 200 3 log memory)
v_kmsg_read_lem_example = v_kmsg_read_lem 200 3 log memory log-IsValid
