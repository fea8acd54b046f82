-- ===== src/Event/Async.antt =====
-- core/async_event.go: the bus with a queue and workers. The children hold the steps of the goroutines
-- and what holds of them. A context only tells whether a call may give up waiting, so that it is a choice
-- of the steps.
pub mod Steps
pub mod Sound
pub mod Safety
pub mod Start
pub mod Drain
pub mod Order
pub mod Reports
use better_token.Base.{
  ℕ, zero, suc, ◌+◌, ◌-◌, Bool, true, false, Option, none, some, List, [], ◌∷◌, ◌++◌, length,
  drop_at, ltb, ◌==◌, if◌then◌else◌,
}
use better_token.Errors.{Error, event_listener_panic}
use better_token.Options
use better_token.Event.{Event, Listener, Outcome, returned, panicked}

-- EventErrorHandler, a step of the listeners' state that returns or panics
pub data Reaction : Type 0 where
  handled failed : Reaction

abbrev pub Handler : Type 0 → Type 0
Handler L = Event → Error → L → Reaction × L

-- asyncEventJob
pub record Job (L : Type 0) : Type 0 where
  pub event : Event
  pub listeners : List (Listener L)
  pub error_handler : Option (Handler L)

-- AsyncEventBus with its goroutines: the calls of Publish that have added to the wait group and hold the
-- lock for reading (`sending`), the workers that have a job (`running`), the count of the wait group
-- (`pending`), whether closeOnce has run (`close_done`), the calls of Close that are in Flush (`flushing`)
-- and those whose Flush has returned nil (`flushed`). A `fault` is a panic of the runtime: a send on the
-- closed queue, a second close of it, or a wait group below 0. `sent` and `dispatched` are histories.
pub record AsyncBus (L : Type 0) : Type 0 where
  pub listeners : List (Listener L)
  pub error_handler : Option (Handler L)
  pub capacity : ℕ
  pub worker_count : ℕ
  pub queue : List (Job L)
  pub sending : List (Job L)
  pub running : List (Job L)
  pub pending : ℕ
  pub closed : Bool
  pub queue_closed : Bool
  pub close_done : Bool
  pub flushing : ℕ
  pub flushed : ℕ
  pub fault : Bool
  pub sent : List (Job L)
  pub dispatched : List (Job L)

-- An option that a caller may pass
pub data Setting (L : Type 0) : Type 0 where
  queue_size worker_number : ℕ → Setting L
  error_handling : Option (Handler L) → Setting L
  no_setting : Setting L

abbrev pub or_else : ℕ → ℕ → ℕ
or_else zero d = d
or_else (suc n) d = suc n

module _ {L : Type 0} where
  -- The options: a size or count that is not positive is 0.
  unfoldable pub with_event_queue_size : ℕ → AsyncBus L → AsyncBus L
  with_event_queue_size size b = if ltb 0 size then record b { capacity = size } else b

  unfoldable pub with_event_worker_count : ℕ → AsyncBus L → AsyncBus L
  with_event_worker_count count b = if ltb 0 count then record b { worker_count = count } else b

  unfoldable pub with_event_error_handler : Option (Handler L) → AsyncBus L → AsyncBus L
  with_event_error_handler handler b = record b { error_handler = handler }

  abbrev pub option_of : Setting L → Option (AsyncBus L → AsyncBus L)
  option_of (queue_size size) = some (with_event_queue_size size)
  option_of (worker_number count) = some (with_event_worker_count count)
  option_of (error_handling handler) = some (with_event_error_handler handler)
  option_of no_setting = none

  abbrev pub default_bus : AsyncBus L
  default_bus = record {
    listeners = [];
    error_handler = none;
    capacity = 64;
    worker_count = 1;
    queue = [];
    sending = [];
    running = [];
    pending = 0;
    closed = false;
    queue_closed = false;
    close_done = false;
    flushing = 0;
    flushed = 0;
    fault = false;
    sent = [];
    dispatched = [];
  }

  -- NewAsyncEventBus: a nil queue is one of capacity 0, which no other has.
  abbrev pub fill : AsyncBus L → AsyncBus L
  fill b = record b { capacity = or_else b.capacity 64; worker_count = or_else b.worker_count 1 }

  unfoldable pub new_async_event_bus : List (Option (AsyncBus L → AsyncBus L)) → AsyncBus L
  unfolding Options.apply
  new_async_event_bus opts = fill (Options.apply default_bus opts)

  -- Register, Clear and ListenerCount
  unfoldable pub register : Option (Listener L) → AsyncBus L → AsyncBus L
  register none b = b
  register (some listener) b = record b { listeners = b.listeners ++ (listener ∷ []) }

  unfoldable pub clear : AsyncBus L → AsyncBus L
  clear b = record b { listeners = [] }

  unfoldable pub listener_count : AsyncBus L → ℕ
  listener_count b = length b.listeners

  -- Publish up to its select
  unfoldable pub begin_publish : Event → AsyncBus L → AsyncBus L
  begin_publish event b =
      let job : Job L = record {
        event = event;
        listeners = b.listeners;
        error_handler = b.error_handler;
      } in
      if b.closed then b else record b { pending = b.pending + 1; sending = job ∷ b.sending }

  -- b.queue <- job, by the i-th of the calls
  unfoldable pub enqueue : ℕ → Job L → AsyncBus L → AsyncBus L
  enqueue i job b = if b.queue_closed then record b { fault = true } else record b {
    queue = b.queue ++ (job ∷ []);
    sending = drop_at b.sending i;
    sent = b.sent ++ (job ∷ []);
  }

  -- b.wg.Done()
  abbrev pub wg_done : AsyncBus L → AsyncBus L
  wg_done b =
      if b.pending == 0 then record b { fault = true } else record b { pending = b.pending - 1 }

  -- The other case of the select: ctx is done.
  unfoldable pub abandon : ℕ → AsyncBus L → AsyncBus L
  abandon i b = wg_done (record b { sending = drop_at b.sending i })

  -- A worker receives a job, and ends it.
  unfoldable pub take_job : Job L → List (Job L) → AsyncBus L → AsyncBus L
  take_job job rest b = record b { queue = rest; running = b.running ++ (job ∷ []) }

  unfoldable pub finish_job : ℕ → Job L → AsyncBus L → AsyncBus L
  finish_job i job b =
      wg_done (record b { running = drop_at b.running i; dispatched = b.dispatched ++ (job ∷ []) })

  -- Close up to its Flush, in which it waits for the wait group; the first call and the others do the
  -- same from there on.
  unfoldable pub begin_close : AsyncBus L → AsyncBus L
  begin_close b = record b { closed = true; flushing = b.flushing + 1 }

  -- Flush returns nil, or the error of the context.
  unfoldable pub end_flush : AsyncBus L → AsyncBus L
  end_flush b = record b { flushing = b.flushing - 1; flushed = b.flushed + 1 }

  unfoldable pub give_up : AsyncBus L → AsyncBus L
  give_up b = record b { flushing = b.flushing - 1 }

  -- b.closeOnce.Do(func() { close(b.queue) })
  abbrev pub close_queue : AsyncBus L → AsyncBus L
  close_queue b =
      if b.queue_closed then record b { fault = true } else record b { queue_closed = true }

  unfoldable pub end_close : AsyncBus L → AsyncBus L
  end_close b =
      let rest = record b { flushed = b.flushed - 1 } in
      if b.close_done then rest else close_queue (record rest { close_done = true })

  -- dispatch: none where the handler panics while the panic of a listener, or of the handler itself, is
  -- handled, which ends the process.
  abbrev pub report_panic : Option (Handler L) → Event → L → Option L
  report_panic none event l = some l
  report_panic (some handler) event l = last (handler event event_listener_panic l)
    where
      last : Reaction × L → Option L
      last (handled, l') = some l'
      last (failed, l') = none

  abbrev pub report : Option (Handler L) → Event → Error → L → Option L
  report none event e l = some l
  report (some handler) event e l = after (handler event e l)
    where
      after : Reaction × L → Option L
      after (handled, l') = some l'
      after (failed, l') = report_panic (some handler) event l'

  abbrev pub outcome : Option (Handler L) → Event → Outcome × L → Option L
  outcome handler event (returned none, l) = some l
  outcome handler event (returned (some e), l) = report handler event e l
  outcome handler event (panicked, l) = report_panic handler event l

  abbrev and_then : Option L → (L → Option L) → Option L
  and_then none f = none
  and_then (some l) f = f l

  unfoldable pub dispatch : Option (Handler L) → Event → List (Listener L) → L → Option L
  dispatch handler event [] l = some l
  dispatch handler event (listener ∷ listeners) l =
      and_then (outcome handler event (listener event l)) (dispatch handler event listeners)
