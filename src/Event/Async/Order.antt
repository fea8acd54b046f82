-- ===== src/Event/Async/Order.antt =====
-- core/async_event.go: the order in which one worker dispatches, and what is sent after Close has begun.
use better_token.Base.{
  ℕ, zero, suc, ◌≡◌, ◌≤◌, inl, inr, refl, sym, ap, ◌∙◌, true, Option, none, some, List, [], ◌∷◌,
  ◌++◌, append_assoc, length, map, drop_at, get_elem?, ◌==◌, arith, Bool-cases,
}
use better_token.Options
use better_token.Event.{Event, Listener}
use better_token.Event.Async.{
  Handler, Setting, queue_size, error_handling, with_event_queue_size, with_event_error_handler,
  option_of, new_async_event_bus, Job, AsyncBus, register, clear, begin_publish, enqueue, abandon,
  take_job, finish_job, begin_close, end_flush, give_up, end_close,
}
use better_token.Event.Async.Steps.{
  takes, finishes, Step, registers, clears, publishes, sends, abandons, works, closes, flushes,
  gives_up, ends_close, Steps, none_yet, later,
}
use better_token.Event.Async.Sound.{IsSound}
use better_token.Event.Async.Start.{new_async_event_bus-IsSound}

module _ {L : Type 0} where
  -- A bus with one worker whose jobs are dispatched, run and queued in the order in which they were sent.
  record IsInOrder (b : AsyncBus L) : Type 0 where
    single : b.worker_count ≡ 1
    in_order : b.sent ≡ b.dispatched ++ (b.running ++ b.queue)

  begin_publish-IsInOrder :
      (event : Event) (b : AsyncBus L) → IsInOrder b → IsInOrder (begin_publish event b)
  unfolding begin_publish
  begin_publish-IsInOrder event b h = elim (Bool-cases b.closed) [
    | inl e ↦ rw e (record { single = h.single; in_order = h.in_order })
    | inr e ↦ rw e (record { single = h.single; in_order = h.in_order })
  ]

  register-IsInOrder :
      (listener : Option (Listener L)) (b : AsyncBus L)
      → IsInOrder b
      → IsInOrder (register listener b)
  unfolding register
  register-IsInOrder none b h = h
  register-IsInOrder (some listener) b h = record { single = h.single; in_order = h.in_order }

  enqueue-IsInOrder :
      (i : ℕ) (job : Job L) (b : AsyncBus L) → IsInOrder b → IsInOrder (enqueue i job b)
  unfolding enqueue
  enqueue-IsInOrder i job b h = elim (Bool-cases b.queue_closed) [
    | inl e ↦ rw e (record { single = h.single; in_order = h.in_order })
    | inr e ↦ rw e (record {
      single = h.single;
      in_order =
          ap (λ s. s ++ (job ∷ [])) h.in_order
          ∙ append_assoc b.dispatched (b.running ++ b.queue) (job ∷ [])
          ∙ ap (λ s. b.dispatched ++ s) (append_assoc b.running b.queue (job ∷ []));
    })
  ]

  abandon-IsInOrder : (i : ℕ) (b : AsyncBus L) → IsInOrder b → IsInOrder (abandon i b)
  unfolding abandon
  abandon-IsInOrder i b h = elim (Bool-cases (b.pending == 0)) [
    | inl e ↦ rw e (record { single = h.single; in_order = h.in_order })
    | inr e ↦ rw e (record { single = h.single; in_order = h.in_order })
  ]

  take_job-IsInOrder :
      (job : Job L) (rest : List (Job L)) (b : AsyncBus L)
      → b.queue ≡ job ∷ rest
      → IsInOrder b
      → IsInOrder (take_job job rest b)
  unfolding take_job
  take_job-IsInOrder job rest b e h = record {
    single = h.single;
    in_order =
        h.in_order
        ∙ ap (λ s. b.dispatched ++ (b.running ++ s)) e
        ∙ ap (λ s. b.dispatched ++ s) (sym (append_assoc b.running (job ∷ []) rest));
  }

  -- The only job that is run is the one that ends.
  alone :
      (jobs : List (Job L)) (i : ℕ) {job : Job L}
      → get_elem? jobs i ≡ some job
      → length jobs ≤ 1
      → jobs ≡ job ∷ drop_at jobs i
  alone [] i e h = absurd (cc)
  alone (x ∷ jobs) zero e h = let p : x ≡ _ = cc in ap (λ y. y ∷ jobs) p
  alone (x ∷ []) (suc i) e h = absurd (cc)
  alone (x ∷ y ∷ jobs) (suc i) e h = absurd (omega arith)

  finish_job-IsInOrder :
      (i : ℕ) (job : Job L) (b : AsyncBus L)
      → get_elem? b.running i ≡ some job
      → length b.running ≤ 1
      → IsInOrder b
      → IsInOrder (finish_job i job b)
  unfolding finish_job
  finish_job-IsInOrder i job b e l h =
      let ended : b.sent ≡ (b.dispatched ++ (job ∷ [])) ++ (drop_at b.running i ++ b.queue) =
        h.in_order
        ∙ ap (λ s. b.dispatched ++ (s ++ b.queue)) (alone b.running i e l)
        ∙ sym (append_assoc b.dispatched (job ∷ []) (drop_at b.running i ++ b.queue)) in
      elim (Bool-cases (b.pending == 0)) [
        | inl z ↦ rw z (record { single = h.single; in_order = ended })
        | inr z ↦ rw z (record { single = h.single; in_order = ended })
      ]

  end_close-IsInOrder : (b : AsyncBus L) → IsInOrder b → IsInOrder (end_close b)
  unfolding end_close
  end_close-IsInOrder b h = record {
    single = ground (arith, h.single);
    in_order = ground (arith, h.in_order);
  }

  Step-IsInOrder : {b c : AsyncBus L} → Step b c → IsSound b → IsInOrder b → IsInOrder c
  unfolding clear begin_close end_flush give_up
  Step-IsInOrder {b} (registers listener e) k h = register-IsInOrder listener b h
  Step-IsInOrder {b} (clears e) k h = record { single = h.single; in_order = h.in_order }
  Step-IsInOrder {b} (publishes event) k h = begin_publish-IsInOrder event b h
  Step-IsInOrder {b} (sends i job e room) k h = enqueue-IsInOrder i job b h
  Step-IsInOrder {b} (abandons i job e) k h = abandon-IsInOrder i b h
  Step-IsInOrder {b} (works (takes job rest e r)) k h = take_job-IsInOrder job rest b e h
  Step-IsInOrder {b} (works (finishes i job e)) k h =
      finish_job-IsInOrder i job b e (omega (arith, k.running_bound, h.single)) h
  Step-IsInOrder {b} (closes e) k h = record { single = h.single; in_order = h.in_order }
  Step-IsInOrder {b} (flushes f e) k h = record { single = h.single; in_order = h.in_order }
  Step-IsInOrder {b} (gives_up f) k h = record { single = h.single; in_order = h.in_order }
  Step-IsInOrder {b} (ends_close f) k h = end_close-IsInOrder b h

  Steps-IsInOrder :
      {b c : AsyncBus L}
      → ((d : AsyncBus L) → Steps b d → IsSound d)
      → Steps b c
      → IsInOrder b
      → IsInOrder c
  Steps-IsInOrder sound none_yet h = h
  Steps-IsInOrder sound (later r s) h = Step-IsInOrder s (sound _ r) (Steps-IsInOrder sound r h)

  -- With one worker, as without an option on it, the jobs that have been dispatched, then the one that is
  -- run and then those queued are the jobs that were sent, in the order in which they were sent.
  pub single_worker_in_order :
      (handler : Option (Handler L)) (size : ℕ) {b : AsyncBus L}
      → Steps
          (new_async_event_bus (map option_of (queue_size size ∷ error_handling handler ∷ [])))
          b
      → b.sent ≡ b.dispatched ++ (b.running ++ b.queue)
  unfolding new_async_event_bus Options.apply with_event_queue_size with_event_error_handler
  single_worker_in_order handler size steps =
      let settings : List (Setting L) = queue_size size ∷ error_handling handler ∷ [] in
      (Steps-IsInOrder (λ d r. new_async_event_bus-IsSound settings r) steps
        (record { single = ground arith; in_order = ground arith })).in_order

  abbrev Shut : AsyncBus L → List (Job L) → Type 0
  Shut b sent = (b.closed ≡ true) × (b.sending ≡ []) × (b.sent ≡ sent)

  Step-Shut : {b c : AsyncBus L} (sent : List (Job L)) → Step b c → Shut b sent → Shut c sent
  unfolding register clear begin_publish take_job finish_job begin_close end_flush give_up end_close
  Step-Shut sent (registers none e) h = h
  Step-Shut sent (registers (some listener) e) h = h
  Step-Shut sent (clears e) h = h
  Step-Shut {b} sent (publishes event) h = let e : b.closed ≡ true = h.0 in rw e (refl, h.1, h.2)
  Step-Shut sent (sends i job e room) h = absurd (let f = rw h.1 at e in cc)
  Step-Shut sent (abandons i job e) h = absurd (let f = rw h.1 at e in cc)
  Step-Shut sent (works (takes job rest e r)) h = h
  Step-Shut sent (works (finishes i job e)) h = ground (arith, h)
  Step-Shut sent (closes e) h = (refl, e, h.2)
  Step-Shut sent (flushes f e) h = h
  Step-Shut sent (gives_up f) h = h
  Step-Shut sent (ends_close f) h = ground (arith, h)

  Steps-Shut : {b c : AsyncBus L} (sent : List (Job L)) → Steps b c → Shut b sent → Shut c sent
  Steps-Shut sent none_yet h = h
  Steps-Shut sent (later r s) h = Step-Shut sent s (Steps-Shut sent r h)

  -- Once Close has begun, nothing more is sent, whatever steps follow.
  pub sent-begin_close :
      (b : AsyncBus L) {c : AsyncBus L} → b.sending ≡ [] → Steps (begin_close b) c → c.sent ≡ b.sent
  unfolding begin_close
  sent-begin_close b e steps = (Steps-Shut b.sent steps (refl, e, refl)).2
