-- ===== src/Event/Async/Steps.antt =====
-- core/async_event.go: the steps of the callers and the workers of the bus, and the states that they reach.
-- Locks are held as the code holds them: a call of Publish holds b.mu for reading until its job is sent or
-- given up, so that Register, Clear and Close, which lock it for writing, run only where no such call is
-- left. The listeners' own run lies between the receiving and the end of a job.
use better_token.Base.{ℕ, suc, ◌≡◌, ◌<◌, ◌⊎◌, true, Option, some, List, [], ◌∷◌, length, get_elem?}
use better_token.Event.{Event, Listener}
use better_token.Event.Async.{
  Job, AsyncBus, register, clear, begin_publish, enqueue, abandon, take_job, finish_job,
  begin_close, end_flush, give_up, end_close,
}

module _ {L : Type 0} where
  -- A worker receives from the queue where there is a job, or ends the job that it has.
  pub data WorkerStep (b : AsyncBus L) : AsyncBus L → Type 0 where
    takes :
        (job : Job L) (rest : List (Job L))
        → b.queue ≡ job ∷ rest
        → length b.running < b.worker_count
        → WorkerStep b (take_job job rest b)
    finishes :
        (i : ℕ) (job : Job L) → get_elem? b.running i ≡ some job → WorkerStep b (finish_job i job b)

  -- A send is ready where the queue has room, and where it is closed: then it panics.
  pub data Step (b : AsyncBus L) : AsyncBus L → Type 0 where
    registers : (listener : Option (Listener L)) → b.sending ≡ [] → Step b (register listener b)
    clears : b.sending ≡ [] → Step b (clear b)
    publishes : (event : Event) → Step b (begin_publish event b)
    sends :
        (i : ℕ) (job : Job L)
        → get_elem? b.sending i ≡ some job
        → (length b.queue < b.capacity) ⊎ (b.queue_closed ≡ true)
        → Step b (enqueue i job b)
    abandons : (i : ℕ) (job : Job L) → get_elem? b.sending i ≡ some job → Step b (abandon i b)
    works : {c : AsyncBus L} → WorkerStep b c → Step b c
    closes : b.sending ≡ [] → Step b (begin_close b)
    flushes : 0 < b.flushing → b.pending ≡ 0 → Step b (end_flush b)
    gives_up : 0 < b.flushing → Step b (give_up b)
    ends_close : 0 < b.flushed → Step b (end_close b)

  pub data Steps (b : AsyncBus L) : AsyncBus L → Type 0 where
    none_yet : Steps b b
    later : {c d : AsyncBus L} → Steps b c → Step c d → Steps b d

  pub data WorkerSteps : ℕ → AsyncBus L → AsyncBus L → Type 0 where
    idle : {b : AsyncBus L} → WorkerSteps 0 b b
    work :
        {n : ℕ} {b c d : AsyncBus L} → WorkerSteps n b c → WorkerStep c d → WorkerSteps (suc n) b d
