-- ===== src/Event/Async/Safety.antt =====
-- core/async_event.go: what holds in every state that the steps reach.
use better_token.Base.{
  ℕ, suc, ◌+◌, ◌≡◌, ◌<◌, inl, inr, refl, Bool, false, some, List, [], ◌∷◌, ◌++◌, length, count,
  tick, get_elem?, length-append, length-drop_at, count-append, count-drop_at, ◌==◌, arith,
}
use better_token.Event.Async.{
  Job, AsyncBus, take_job, finish_job, begin_close, end_flush, give_up, end_close,
}
use better_token.Event.Async.Steps.{
  WorkerStep, takes, finishes, Step, registers, clears, publishes, sends, abandons, works, closes,
  flushes, gives_up, ends_close, Steps, none_yet, later, WorkerSteps, idle, work,
}
use better_token.Event.Async.Sound.{
  IsSound, register-IsSound, clear-IsSound, begin_publish-IsSound, enqueue-IsSound, abandon-IsSound,
}

module _ {L : Type 0} where
  take_job-IsSound :
      (job : Job L) (rest : List (Job L)) (b : AsyncBus L)
      → b.queue ≡ job ∷ rest
      → length b.running < b.worker_count
      → IsSound b
      → IsSound (take_job job rest b)
  unfolding take_job
  take_job-IsSound job rest b e r h =
      let l : length b.queue ≡ suc (length rest) = rw e refl in
      let a = length-append b.running (job ∷ []) in
      record {
        fault = h.fault;
        pending = omega (arith, h.pending, l, a);
        queue_bound = omega (arith, h.queue_bound, l);
        running_bound = omega (arith, r, a);
        shut = h.shut;
        unclosed = h.unclosed;
        flushed = h.flushed;
        queue_closed = h.queue_closed;
        close_done = h.close_done;
        staffed = h.staffed;
        kept = λ p. taken p (h.kept p) (count-append p b.running (job ∷ []));
      }
    where
      taken :
          (p : Job L → Bool)
          → count p b.sent ≡ count p b.dispatched + (count p b.running + count p b.queue)
          → count p (b.running ++ (job ∷ [])) ≡ count p b.running + (tick (p job) + 0)
          → count p b.sent
            ≡ count p b.dispatched + (count p (b.running ++ (job ∷ [])) + count p rest)
      taken p k c =
          let d : count p b.queue ≡ tick (p job) + count p rest = rw e refl in
          omega (arith, k, c, d)

  finish_job-IsSound :
      (i : ℕ) (job : Job L) (b : AsyncBus L)
      → get_elem? b.running i ≡ some job
      → IsSound b
      → IsSound (finish_job i job b)
  unfolding finish_job
  finish_job-IsSound i job b e h =
      let l = length-drop_at b.running i e in
      let q : (b.pending == 0) ≡ false = ground (arith, h.pending, l) in
      rw q (record {
        fault = h.fault;
        pending = omega (arith, h.pending, l);
        queue_bound = h.queue_bound;
        running_bound = omega (arith, h.running_bound, l);
        shut = h.shut;
        unclosed = h.unclosed;
        flushed = ground (arith, h.flushed);
        queue_closed = ground (arith, h.queue_closed);
        close_done = h.close_done;
        staffed = h.staffed;
        kept = λ p. omega (
          arith,
          h.kept p,
          count-append p b.dispatched (job ∷ []),
          count-drop_at p b.running i e,
        );
      })

  begin_close-IsSound : (b : AsyncBus L) → b.sending ≡ [] → IsSound b → IsSound (begin_close b)
  unfolding begin_close
  begin_close-IsSound b e h = record {
    fault = h.fault;
    pending = h.pending;
    queue_bound = h.queue_bound;
    running_bound = h.running_bound;
    shut = inr (rw e refl);
    unclosed = inl refl;
    flushed = h.flushed;
    queue_closed = h.queue_closed;
    close_done = h.close_done;
    staffed = h.staffed;
    kept = h.kept;
  }

  end_flush-IsSound :
      (b : AsyncBus L) → 0 < b.flushing → b.pending ≡ 0 → IsSound b → IsSound (end_flush b)
  unfolding end_flush
  end_flush-IsSound b f e h = record {
    fault = h.fault;
    pending = h.pending;
    queue_bound = h.queue_bound;
    running_bound = h.running_bound;
    shut = h.shut;
    unclosed = ground (arith, h.unclosed);
    flushed = inr e;
    queue_closed = h.queue_closed;
    close_done = h.close_done;
    staffed = h.staffed;
    kept = h.kept;
  }

  give_up-IsSound : (b : AsyncBus L) → IsSound b → IsSound (give_up b)
  unfolding give_up
  give_up-IsSound b h = record {
    fault = h.fault;
    pending = h.pending;
    queue_bound = h.queue_bound;
    running_bound = h.running_bound;
    shut = h.shut;
    unclosed = ground (arith, h.unclosed);
    flushed = h.flushed;
    queue_closed = h.queue_closed;
    close_done = h.close_done;
    staffed = h.staffed;
    kept = h.kept;
  }

  end_close-IsSound : (b : AsyncBus L) → 0 < b.flushed → IsSound b → IsSound (end_close b)
  unfolding end_close
  end_close-IsSound b f h = record {
    fault = ground (arith, f, h.fault, h.flushed, h.unclosed, h.close_done);
    pending = ground (arith, f, h.pending, h.flushed, h.unclosed, h.close_done);
    queue_bound = ground (arith, f, h.queue_bound, h.flushed, h.unclosed, h.close_done);
    running_bound = ground (arith, f, h.running_bound, h.flushed, h.unclosed, h.close_done);
    shut = ground (arith, f, h.shut, h.flushed, h.unclosed, h.close_done);
    unclosed = ground (arith, f, h.unclosed, h.flushed, h.unclosed, h.close_done);
    flushed = ground (arith, f, h.flushed, h.flushed, h.unclosed, h.close_done);
    queue_closed = ground (arith, f, h.queue_closed, h.flushed, h.unclosed, h.close_done);
    close_done = ground (arith, f, h.close_done, h.flushed, h.unclosed, h.close_done);
    staffed = ground (arith, h.staffed);
    kept = ground (arith, f, h.kept, h.flushed, h.unclosed, h.close_done);
  }

  WorkerStep-IsSound : {b c : AsyncBus L} → WorkerStep b c → IsSound b → IsSound c
  WorkerStep-IsSound {b} (takes job rest e r) h = take_job-IsSound job rest b e r h
  WorkerStep-IsSound {b} (finishes i job e) h = finish_job-IsSound i job b e h

  Step-IsSound : {b c : AsyncBus L} → Step b c → IsSound b → IsSound c
  Step-IsSound {b} (registers listener e) h = register-IsSound listener b h
  Step-IsSound {b} (clears e) h = clear-IsSound b h
  Step-IsSound {b} (publishes event) h = begin_publish-IsSound event b h
  Step-IsSound {b} (sends i job e room) h = enqueue-IsSound i job b e room h
  Step-IsSound {b} (abandons i job e) h = abandon-IsSound i job b e h
  Step-IsSound (works s) h = WorkerStep-IsSound s h
  Step-IsSound {b} (closes e) h = begin_close-IsSound b e h
  Step-IsSound {b} (flushes f e) h = end_flush-IsSound b f e h
  Step-IsSound {b} (gives_up f) h = give_up-IsSound b h
  Step-IsSound {b} (ends_close f) h = end_close-IsSound b f h

  pub WorkerSteps-IsSound : {n : ℕ} {b c : AsyncBus L} → WorkerSteps n b c → IsSound b → IsSound c
  WorkerSteps-IsSound idle h = h
  WorkerSteps-IsSound (work r s) h = WorkerStep-IsSound s (WorkerSteps-IsSound r h)

  pub Steps-IsSound : {b c : AsyncBus L} → Steps b c → IsSound b → IsSound c
  Steps-IsSound none_yet h = h
  Steps-IsSound (later r s) h = Step-IsSound s (Steps-IsSound r h)
