-- ===== src/Event/Async/Start.antt =====
-- core/async_event.go: buses from NewAsyncEventBus on, and what holds once Close has closed the queue.
use better_token.Base.{
  ℕ, zero, suc, ◌+◌, ◌≡◌, ◌<◌, inl, inr, refl, Bool, true, Option, none, List, [], ◌∷◌, length,
  count, map, ltb, arith, Bool-cases,
}
use better_token.Options
use better_token.Event.Async.{
  Handler, Job, AsyncBus, Setting, queue_size, worker_number, error_handling, no_setting, option_of,
  default_bus, new_async_event_bus, with_event_queue_size, with_event_worker_count,
  with_event_error_handler, fill, or_else,
}
use better_token.Event.Async.Steps.{Steps}
use better_token.Event.Async.Sound.{IsSound}
use better_token.Event.Async.Safety.{Steps-IsSound}

or_else-positive : (n d : ℕ) → 0 < d → 0 < or_else n d
or_else-positive zero d h = h
or_else-positive (suc n) d h = omega arith

module _ {L : Type 0} where
  -- A bus on which nothing has happened yet.
  abbrev fresh : ℕ → ℕ → Option (Handler L) → AsyncBus L
  fresh capacity workers handler = record default_bus {
    capacity = capacity;
    worker_count = workers;
    error_handler = handler;
  }

  fresh-IsSound :
      (capacity workers : ℕ) (handler : Option (Handler L))
      → IsSound (fill (fresh capacity workers handler))
  fresh-IsSound capacity workers handler = record {
    fault = refl;
    pending = refl;
    queue_bound = omega arith;
    running_bound = omega arith;
    shut = inl refl;
    unclosed = inr (refl, refl, refl);
    flushed = inl refl;
    queue_closed = inl refl;
    close_done = refl;
    staffed = or_else-positive workers 1 (omega arith);
    kept = λ p. refl;
  }

  apply-IsSound :
      (settings : List (Setting L)) (capacity workers : ℕ) (handler : Option (Handler L))
      → IsSound (fill (Options.apply (fresh capacity workers handler) (map option_of settings)))
  unfolding Options.apply with_event_queue_size with_event_worker_count with_event_error_handler
  apply-IsSound [] capacity workers handler = fresh-IsSound capacity workers handler
  apply-IsSound (no_setting ∷ settings) capacity workers handler =
      apply-IsSound settings capacity workers handler
  apply-IsSound (error_handling h ∷ settings) capacity workers handler =
      apply-IsSound settings capacity workers h
  apply-IsSound (queue_size n ∷ settings) capacity workers handler = elim (Bool-cases (ltb 0 n)) [
    | inl e ↦ rw e (apply-IsSound settings n workers handler)
    | inr e ↦ rw e (apply-IsSound settings capacity workers handler)
  ]
  apply-IsSound (worker_number n ∷ settings) capacity workers handler =
      elim (Bool-cases (ltb 0 n)) [
        | inl e ↦ rw e (apply-IsSound settings capacity n handler)
        | inr e ↦ rw e (apply-IsSound settings capacity workers handler)
      ]

  start-IsSound :
      (settings : List (Setting L)) → IsSound (new_async_event_bus (map option_of settings))
  unfolding new_async_event_bus
  start-IsSound settings = apply-IsSound settings 64 1 none

  -- In every state that a bus reaches from NewAsyncEventBus on, whatever options it was given: no job is
  -- sent on the closed queue, the queue is not closed twice and the wait group is not below 0; the count
  -- of the wait group is that of the jobs that are being sent, queued and run; the queue and the workers
  -- keep their bounds; and each job sent has been dispatched once, is run or is queued.
  pub new_async_event_bus-IsSound :
      (settings : List (Setting L)) {b : AsyncBus L}
      → Steps (new_async_event_bus (map option_of settings)) b
      → IsSound b
  new_async_event_bus-IsSound settings steps = Steps-IsSound steps (start-IsSound settings)

  abbrev pub Delivered : AsyncBus L → Type 0
  Delivered b =
      (length b.sending ≡ 0)
      × (length b.queue ≡ 0)
      × (length b.running ≡ 0)
      × ((p : Job L → Bool) → count p b.sent ≡ count p b.dispatched)

  none_counted : (p : Job L → Bool) (jobs : List (Job L)) → length jobs ≡ 0 → count p jobs ≡ 0
  none_counted p [] e = refl
  none_counted p (job ∷ jobs) e = absurd (omega (arith, e))

  pub delivered : {b : AsyncBus L} → IsSound b → b.pending ≡ 0 → Delivered b
  delivered {b} h e = (
    omega (arith, h.pending, e),
    omega (arith, h.pending, e),
    omega (arith, h.pending, e),
    λ p. settled p (h.kept p),
  )
    where
      settled :
          (p : Job L → Bool)
          → count p b.sent ≡ count p b.dispatched + (count p b.running + count p b.queue)
          → count p b.sent ≡ count p b.dispatched
      settled p k =
          let r = none_counted p b.running (omega (arith, h.pending, e)) in
          let q = none_counted p b.queue (omega (arith, h.pending, e)) in omega (arith, k, r, q)

  -- Once Close has closed the queue, no call of Publish is left that sends, no job is queued or run, and
  -- each job that was ever sent has been dispatched exactly once.
  pub queue_closed-Delivered :
      (settings : List (Setting L)) {b : AsyncBus L}
      → Steps (new_async_event_bus (map option_of settings)) b
      → b.queue_closed ≡ true
      → Delivered b
  queue_closed-Delivered settings steps e =
      let h = new_async_event_bus-IsSound settings steps in
      elim h.queue_closed [ inl n ↦ absurd (cc) | inr z ↦ delivered h z ]
