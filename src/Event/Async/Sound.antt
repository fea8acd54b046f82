-- ===== src/Event/Async/Sound.antt =====
-- core/async_event.go: the invariant of the bus, and that what a call of Publish, Register and Clear does
-- keeps it.
use better_token.Base.{
  ℕ, ◌+◌, ◌≡◌, ◌<◌, ◌≤◌, ◌⊎◌, inl, refl, Bool, true, false, Option, none, some, [], ◌∷◌, length,
  count, get_elem?, length-append, length-drop_at, count-append, ◌==◌, arith,
}
use better_token.Event.{Event, Listener}
use better_token.Event.Async.{Job, AsyncBus, register, clear, begin_publish, enqueue, abandon}

module _ {L : Type 0} where
  -- Of the jobs that pass a test, as many were sent as have been dispatched, are run or are queued.
  abbrev pub Kept : AsyncBus L → Type 0
  Kept b =
      (p : Job L → Bool)
      → count p b.sent ≡ count p b.dispatched + (count p b.running + count p b.queue)

  pub record IsSound (b : AsyncBus L) : Type 0 where
    pub fault : b.fault ≡ false
    pub pending : b.pending ≡ length b.sending + (length b.queue + length b.running)
    pub queue_bound : length b.queue ≤ b.capacity
    pub running_bound : length b.running ≤ b.worker_count
    pub shut : (b.closed ≡ false) ⊎ (length b.sending ≡ 0)
    pub unclosed :
        (b.closed ≡ true) ⊎ ((b.flushing ≡ 0) × (b.flushed ≡ 0) × (b.queue_closed ≡ false))
    pub flushed : (b.flushed ≡ 0) ⊎ (b.pending ≡ 0)
    pub queue_closed : (b.queue_closed ≡ false) ⊎ (b.pending ≡ 0)
    pub close_done : b.close_done ≡ b.queue_closed
    pub staffed : 0 < b.worker_count
    pub kept : Kept b

  pub register-IsSound :
      (listener : Option (Listener L)) (b : AsyncBus L) → IsSound b → IsSound (register listener b)
  unfolding register
  register-IsSound none b h = h
  register-IsSound (some listener) b h = record {
    fault = h.fault;
    pending = h.pending;
    queue_bound = h.queue_bound;
    running_bound = h.running_bound;
    shut = h.shut;
    unclosed = h.unclosed;
    flushed = h.flushed;
    queue_closed = h.queue_closed;
    close_done = h.close_done;
    staffed = h.staffed;
    kept = h.kept;
  }

  pub clear-IsSound : (b : AsyncBus L) → IsSound b → IsSound (clear b)
  unfolding clear
  clear-IsSound b h = record {
    fault = h.fault;
    pending = h.pending;
    queue_bound = h.queue_bound;
    running_bound = h.running_bound;
    shut = h.shut;
    unclosed = h.unclosed;
    flushed = h.flushed;
    queue_closed = h.queue_closed;
    close_done = h.close_done;
    staffed = h.staffed;
    kept = h.kept;
  }

  pub begin_publish-IsSound :
      (event : Event) (b : AsyncBus L) → IsSound b → IsSound (begin_publish event b)
  unfolding begin_publish
  begin_publish-IsSound event b h = record {
    fault = ground (arith, h.fault);
    pending = ground (arith, h.pending);
    queue_bound = ground (arith, h.queue_bound);
    running_bound = ground (arith, h.running_bound);
    shut = ground (arith, h.shut);
    unclosed = ground (arith, h.unclosed);
    flushed = ground (arith, h.flushed, h.unclosed);
    queue_closed = ground (arith, h.queue_closed, h.unclosed);
    close_done = ground (arith, h.close_done);
    staffed = ground (arith, h.staffed);
    kept = ground (arith, h.kept);
  }

  pub enqueue-IsSound :
      (i : ℕ) (job : Job L) (b : AsyncBus L)
      → get_elem? b.sending i ≡ some job
      → (length b.queue < b.capacity) ⊎ (b.queue_closed ≡ true)
      → IsSound b
      → IsSound (enqueue i job b)
  unfolding enqueue
  enqueue-IsSound i job b e room h =
      let l = length-drop_at b.sending i e in
      let q : b.queue_closed ≡ false = ground (arith, h.queue_closed, h.pending, l) in
      let r : length b.queue < b.capacity = ground arith in
      rw q (record {
        fault = h.fault;
        pending = ground (arith, h.pending, l, length-append b.queue (job ∷ []));
        queue_bound = ground (arith, length-append b.queue (job ∷ []));
        running_bound = h.running_bound;
        shut = ground (arith, h.shut);
        unclosed = ground (arith, h.unclosed);
        flushed = h.flushed;
        queue_closed = inl refl;
        close_done = ground (arith, h.close_done, q);
        staffed = h.staffed;
        kept = λ p.
            omega (
              arith,
              h.kept p,
              count-append p b.sent (job ∷ []),
              count-append p b.queue (job ∷ []),
            );
      })

  pub abandon-IsSound :
      (i : ℕ) (job : Job L) (b : AsyncBus L)
      → get_elem? b.sending i ≡ some job
      → IsSound b
      → IsSound (abandon i b)
  unfolding abandon
  abandon-IsSound i job b e h =
      let l = length-drop_at b.sending i e in
      let q : (b.pending == 0) ≡ false = ground (arith, h.pending, l) in
      rw q (record {
        fault = h.fault;
        pending = omega (arith, h.pending, l);
        queue_bound = h.queue_bound;
        running_bound = h.running_bound;
        shut = ground (arith, h.shut);
        unclosed = h.unclosed;
        flushed = ground (arith, h.flushed);
        queue_closed = ground (arith, h.queue_closed);
        close_done = h.close_done;
        staffed = h.staffed;
        kept = h.kept;
      })
