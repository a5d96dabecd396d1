-- ===== src/Examples/Queue.antt =====
-- Runs of the readers and workers of pkg/usbdlib/reqproc.go.
use usbd.Base.{◌≡◌, refl, true, false, none, some, [], ◌∷◌, arith}
use usbd.Usbdlib.Processor.{
  Job, Proc, init, receive, complete, update, Reach, here, next, recv, start, outstanding,
  Kind.write, Kind.flush,
}
use usbd.Usbdlib.Processor.Waiting.{flush_waits}
use usbd.Usbdlib.Processor.Leak.{refused_write_blocks_flush}

abbrev flush_job : Job
flush_job = record { kind = flush; mu = 0; whole = true }

-- A flush was received, and a worker has it.
abbrev flushing : Proc
flushing = record { current = 1; readers = λ m. 0; queue = []; running = flush_job ∷ [] }

flushing-reached : Reach 1 init flushing
unfolding receive
flushing-reached =
    next (next here (recv flush true (omega arith))) (start flush_job [] refl (omega arith))

flush_passes :
    complete flush flush_job (record flushing { running = [] })
    ≡ some (record flushing { running = [] })
unfolding complete
flush_passes = refl

flush_waits_example : outstanding 0 (record flushing { running = [] }) ≡ 0
flush_waits_example = flush_waits [] flush_job [] flushing-reached refl refl flush_passes

abbrev write_job : Job
write_job = record { kind = write; mu = 0; whole = false }

-- A write that is not made of whole blocks was received, and a worker has it.
abbrev writing : Proc
writing = record {
  current = 0;
  readers = update (λ m. 0) 0 1;
  queue = [];
  running = write_job ∷ [];
}

writing-reached : Reach 1 init writing
unfolding receive
writing-reached =
    next (next here (recv write false (omega arith))) (start write_job [] refl (omega arith))

write_done :
    complete write write_job (record writing { running = [] })
    ≡ some (record writing { running = [] })
unfolding complete
write_done = refl

-- The flush is received after the write was answered.
flush_received :
    Reach 1 (record writing { running = [] }) (receive flush true (record writing { running = [] }))
flush_received = next here (recv flush true (omega arith))

refused_write_blocks_flush_example :
    complete flush flush_job (receive flush true (record writing { running = [] })) ≡ none
refused_write_blocks_flush_example =
    refused_write_blocks_flush [] write_job [] writing-reached refl refl refl write_done
      flush_received flush_job refl refl

-- A write of mutex 0 is running, and a flush has been received since.
abbrev busy : Proc
busy = record {
  current = 1;
  readers = update (λ m. 0) 0 1;
  queue = [];
  running = record write_job { whole = true } ∷ [];
}

abbrev still_running : Job
still_running = record write_job { whole = true }
