-- ===== src/Tests/Async.antt =====
-- The theorems on the bus with a queue, at concrete inputs.
use better_token.Base.{
  ℕ, ◌+◌, ◌≡◌, ◌≤◌, ◌⊎◌, inl, refl, none, some, List, [], ◌∷◌, ◌++◌, map, arith,
}
use better_token.Text.{text}
use better_token.Errors.{empty_token, event_listener_panic}
use better_token.Options
use better_token.Event.{Event, EventType, Listener, returned, panicked, publish}
use better_token.Event.Async.{
  Setting, queue_size, error_handling, option_of, new_async_event_bus, AsyncBus, Job, register,
  begin_publish, enqueue, take_job, finish_job, begin_close, end_flush, end_close, dispatch,
  with_event_queue_size, with_event_error_handler,
}
use better_token.Event.Async.Steps.{
  takes, finishes, registers, publishes, sends, works, closes, flushes, ends_close, Steps, none_yet,
  later, WorkerSteps, idle, work,
}
use better_token.Event.Async.Sound.{IsSound}
use better_token.Event.Async.Start.{Delivered, new_async_event_bus-IsSound, queue_closed-Delivered}
use better_token.Event.Async.Drain.{ahead, CanWork, workers_drain}
use better_token.Event.Async.Order.{single_worker_in_order, sent-begin_close}
use better_token.Event.Async.Reports.{with_reports, note, dispatch-publish}

abbrev event : Event
event = record {
  kind = EventType.login;
  login_id = text "u";
  login_type = text "login";
  token = text "t";
  time = 100;
  device = none;
}

-- A listener that counts its calls and panics.
abbrev counter : Listener ℕ
counter e n = (panicked, n + 1)

abbrev refuser : Listener ℕ
refuser e n = (returned (some empty_token), n + 10)

abbrev settings : List (Setting ℕ)
settings = queue_size 2 ∷ error_handling none ∷ []

abbrev bus : AsyncBus ℕ
bus = new_async_event_bus (map option_of settings)

abbrev job : Job ℕ
job = record { event = event; listeners = counter ∷ []; error_handler = none }

-- A listener is registered and an event is sent.
abbrev one_sent : AsyncBus ℕ
one_sent = enqueue 0 job (begin_publish event (register (some counter) bus))

abbrev one_done : AsyncBus ℕ
one_done = finish_job 0 job (take_job job [] one_sent)

abbrev ended : AsyncBus ℕ
ended = end_close (end_flush (begin_close one_done))

one_sent-Steps : Steps bus one_sent
unfolding new_async_event_bus Options.apply with_event_queue_size with_event_error_handler register
    begin_publish enqueue
one_sent-Steps =
    later (later (later none_yet (registers (some counter) refl)) (publishes event))
      (sends 0 job refl (inl (omega arith)))

one_done-Steps : WorkerSteps 2 one_sent one_done
unfolding new_async_event_bus Options.apply with_event_queue_size with_event_error_handler register
    begin_publish enqueue take_job finish_job
one_done-Steps = work (work idle (takes job [] refl (omega arith))) (finishes 0 job refl)

ended-Steps : Steps bus ended
unfolding new_async_event_bus Options.apply with_event_queue_size with_event_error_handler register
    begin_publish enqueue take_job finish_job begin_close end_flush end_close
ended-Steps =
    let s1 : Steps bus (take_job job [] one_sent) =
      later one_sent-Steps (works (takes job [] refl (omega arith))) in
    let s2 : Steps bus one_done = later s1 (works (finishes 0 job refl)) in
    let s3 : Steps bus (begin_close one_done) = later s2 (closes refl) in
    let s4 : Steps bus (end_flush (begin_close one_done)) = later s3 (flushes (omega arith) refl) in
    later s4 (ends_close (omega arith))

new_async_event_bus-IsSound_example : IsSound ended
new_async_event_bus-IsSound_example = new_async_event_bus-IsSound settings ended-Steps

queue_closed-Delivered_example : Delivered ended
unfolding new_async_event_bus Options.apply with_event_queue_size with_event_error_handler register
    begin_publish enqueue take_job finish_job begin_close end_flush end_close
queue_closed-Delivered_example = queue_closed-Delivered settings ended-Steps refl

workers_drain_example :
    (2 ≤ ahead one_sent) × (CanWork one_done ⊎ ((ahead one_done ≡ 0) × (one_done.pending ≡ 0)))
unfolding new_async_event_bus Options.apply with_event_queue_size with_event_error_handler register
    begin_publish enqueue take_job finish_job
workers_drain_example = workers_drain settings one_sent-Steps one_done-Steps

single_worker_in_order_example :
    one_sent.sent ≡ one_sent.dispatched ++ (one_sent.running ++ one_sent.queue)
single_worker_in_order_example = single_worker_in_order none 2 one_sent-Steps

sent-begin_close_example : (end_flush (begin_close one_done)).sent ≡ one_done.sent
unfolding new_async_event_bus Options.apply with_event_queue_size with_event_error_handler register
    begin_publish enqueue take_job finish_job begin_close
sent-begin_close_example =
    sent-begin_close one_done refl (later none_yet (flushes (omega arith) refl))

dispatch-publish_example :
    dispatch (some note) event (map with_reports (counter ∷ refuser ∷ [])) (3, [])
    ≡ some (publish event (counter ∷ refuser ∷ []) 3, event_listener_panic ∷ empty_token ∷ [])
unfolding dispatch publish
dispatch-publish_example = dispatch-publish event (counter ∷ refuser ∷ []) 3 []
