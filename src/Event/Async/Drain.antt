-- ===== src/Event/Async/Drain.antt =====
-- core/async_event.go: the workers get done with what was sent.
use better_token.Base.{
  ℕ, suc, ◌+◌, ◌*◌, ◌≡◌, ◌<◌, ◌≤◌, ◌⊎◌, inl, inr, refl, ◌∙◌, map, List, [], ◌∷◌, length,
  length-append, length-drop_at, ◌==◌, arith, Bool-cases,
}
use better_token.Event.Async.{
  Setting, option_of, new_async_event_bus, Job, AsyncBus, take_job, finish_job,
}
use better_token.Event.Async.Steps.{WorkerStep, takes, finishes, WorkerSteps, idle, work, Steps}
use better_token.Event.Async.Safety.{WorkerSteps-IsSound}
use better_token.Event.Async.Start.{new_async_event_bus-IsSound}

module _ {L : Type 0} where
  -- The steps that the workers have ahead: two for a job that is queued and one for one that is run.
  abbrev pub ahead : AsyncBus L → ℕ
  ahead b = 2 * length b.queue + length b.running

  WorkerStep-ahead : {b c : AsyncBus L} → WorkerStep b c → ahead b ≡ suc (ahead c)
  unfolding take_job finish_job
  WorkerStep-ahead {b} (takes job rest e r) =
      let l : length b.queue ≡ suc (length rest) = rw e refl in
      omega (arith, l, length-append b.running (job ∷ []))
  WorkerStep-ahead {b} (finishes i job e) = elim (Bool-cases (b.pending == 0)) [
    | inl z ↦ rw z (omega (arith, length-drop_at b.running i e))
    | inr z ↦ rw z (omega (arith, length-drop_at b.running i e))
  ]

  abbrev pub CanWork : AsyncBus L → Type 0
  CanWork b = (c : AsyncBus L) × WorkerStep b c

  can_work : (b : AsyncBus L) → 0 < b.worker_count → (ahead b ≡ 0) ⊎ CanWork b
  can_work b h = by_running b.running b.queue refl refl
    where
      by_running :
          (running queue : List (Job L))
          → b.running ≡ running
          → b.queue ≡ queue
          → (ahead b ≡ 0) ⊎ CanWork b
      by_running (job ∷ running) queue e f = inr (finish_job 0 job b, finishes 0 job (rw e refl))
      by_running [] [] e f = inl (rw (e, f) refl)
      by_running [] (job ∷ queue) e f = inr (take_job job queue b, takes job queue f (rw e h))

  WorkerSteps-ahead : {n : ℕ} {b c : AsyncBus L} → WorkerSteps n b c → ahead b ≡ n + ahead c
  WorkerSteps-ahead idle = omega arith
  WorkerSteps-ahead (work steps s) = omega (arith, WorkerSteps-ahead steps, WorkerStep-ahead s)

  WorkerStep-sending : {b c : AsyncBus L} → WorkerStep b c → length b.sending ≡ length c.sending
  unfolding take_job finish_job
  WorkerStep-sending (takes job rest e r) = refl
  WorkerStep-sending {b} (finishes i job e) = ground arith

  WorkerSteps-sending :
      {n : ℕ} {b c : AsyncBus L} → WorkerSteps n b c → length b.sending ≡ length c.sending
  WorkerSteps-sending idle = refl
  WorkerSteps-sending (work steps s) = WorkerSteps-sending steps ∙ WorkerStep-sending s

  -- From every state that a bus reaches: a run of the workers' steps, in whatever order they take and end
  -- the jobs, has at most two steps for each job that was queued and one for each that was run; after it
  -- some worker can go on, or nothing is queued or run, and the wait group counts only the calls of
  -- Publish that are still sending. So once each listener returns, Flush returns where no call sends.
  pub workers_drain :
      (settings : List (Setting L)) {n : ℕ} {b c : AsyncBus L}
      → Steps (new_async_event_bus (map option_of settings)) b
      → WorkerSteps n b c
      → (n ≤ ahead b) × (CanWork c ⊎ ((ahead c ≡ 0) × (c.pending ≡ length b.sending)))
  workers_drain settings {n} {b} {c} reached steps =
      let h = WorkerSteps-IsSound steps (new_async_event_bus-IsSound settings reached) in
      let s = WorkerSteps-sending steps in
      (
        omega (arith, WorkerSteps-ahead steps),
        elim (can_work c h.staffed) [
          | inl z ↦ inr (z, omega (arith, h.pending, z, s))
          | inr w ↦ inl w
        ],
      )
