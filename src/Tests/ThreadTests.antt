-- ===== src/Tests/ThreadTests.antt =====
-- The theorems on the parameters of threads, with a system whose state is what was asked of it last.
use rtsc.Prelude.{
  ℕ, suc, pos, ◌<◌, ◌*◌, ltb, ◌≡◌, refl, inr, true, none, some, List, [], ◌∷◌, All, arith,
}
use rtsc.Error.{ok}
use rtsc.ThreadRt.{Params, fifo}
use rtsc.ThreadRt.LinuxGnu
use rtsc.ThreadRt.LinuxGnu.{Syscalls}
use rtsc.ThreadRt.LinuxOther
use rtsc.ThreadRt.LinuxOther.{Commands, exited}
use rtsc.ThreadRt.Heap.{HeapCalls, prepared, prealloc_heap, touches_page, prealloc_heap_lem}

-- The state counts the calls, which succeed for the user `uid`.
abbrev calls : ℕ → Syscalls ℕ
calls uid = record {
  getuid = uid;
  sched_setaffinity = λ tid cpus n. (none, suc n);
  sched_setscheduler = λ tid sched priority n. (none, suc n);
}

abbrev commands : ℕ → Commands ℕ
commands uid = record {
  getuid = uid;
  gettid = inr (pos 7);
  status = λ program args n. (exited 0, suc n);
  exit_text = λ code. "exit code";
}

abbrev real_time : Params
real_time = record { priority = some (pos 80); scheduling = fifo; cpu_ids = 1 ∷ 3 ∷ [] }

abbrev heap : HeapCalls ℕ
heap = record {
  getuid = 0;
  mallopt_mmap_max = λ n. (true, suc n);
  mallopt_trim_threshold = λ n. (true, suc n);
  mlockall = λ n. (true, suc n);
  page_size = some 4096;
}

-- A vector of three pages that begins 16 bytes after the start of a page reaches into a fourth one.
prealloc_heap_lem_example :
    (written : List ℕ) × (prealloc_heap heap 12288 0 ≡ (some (ok tt, written), (prepared heap 0).1))
    × All (λ i. i < 12288) written
    × ((n : ℕ) → touches_page 16 4096 n written ≡ ltb (n * 4096) 12288)
prealloc_heap_lem_example =
    prealloc_heap_lem heap 12288 0 4096 16 refl refl refl refl refl (omega arith) (omega arith)
