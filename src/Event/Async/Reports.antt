-- ===== src/Event/Async/Reports.antt =====
-- core/async_event.go: what a dispatch does to the listeners, and what it reports.
use better_token.Base.{
  ◌≡◌, refl, sym, ap, ◌∙◌, none, some, List, [], ◌∷◌, ◌++◌, append_assoc, append-nil, map,
}
use better_token.Errors.{Error, event_listener_panic}
use better_token.Event.{Event, Listener, Outcome, returned, panicked, publish}
use better_token.Event.Async.{handled, Handler, outcome, dispatch, and_then}

abbrev report_of : Outcome → List Error
report_of (returned none) = []
report_of (returned (some e)) = e ∷ []
report_of panicked = event_listener_panic ∷ []

module _ {L : Type 0} where
  -- A listener whose state stands beside a list of reports.
  abbrev beside : Outcome × L → List Error → Outcome × (L × List Error)
  beside (o, l) reports = (o, (l, reports))

  abbrev pub with_reports : Listener L → Listener (L × List Error)
  with_reports listener event (l, reports) = beside (listener event l) reports

  -- A handler that notes each error.
  abbrev pub note : Handler (L × List Error)
  note event e (l, reports) = (handled, (l, reports ++ (e ∷ [])))

  -- What the listeners, called in turn, end in: an error that one returns, or that it has panicked.
  abbrev pub reports_of : Event → List (Listener L) → L → List Error
  reports_of event [] l = []
  reports_of event (listener ∷ listeners) l =
      let (o, l') = listener event l in report_of o ++ reports_of event listeners l'

  outcome-note :
      (event : Event) (r : Outcome × L) (reports : List Error)
      → outcome (some note) event (beside r reports) ≡ some (r.1, reports ++ report_of r.0)
  outcome-note event (returned none, l) reports = ap (λ s. some (l, s)) (sym (append-nil reports))
  outcome-note event (returned (some e), l) reports = refl
  outcome-note event (panicked, l) reports = refl

  -- A dispatch calls the listeners in turn exactly as the synchronous bus does, whatever they return and
  -- whether or not they panic, and reports to the handler, in that order, each error that one returns, and
  -- a panic as ErrEventListenerPanic.
  pub dispatch-publish :
      (event : Event) (listeners : List (Listener L)) (l : L) (reports : List Error)
      → dispatch (some note) event (map with_reports listeners) (l, reports)
        ≡ some (publish event listeners l, reports ++ reports_of event listeners l)
  unfolding dispatch publish
  dispatch-publish event [] l reports = ap (λ s. some (l, s)) (sym (append-nil reports))
  dispatch-publish event (listener ∷ listeners) l reports =
      let (o, l') = listener event l in
      ap (λ r. and_then r (dispatch (some note) event (map with_reports listeners)))
        (outcome-note event (listener event l) reports)
      ∙ dispatch-publish event listeners (listener event l).1
          (reports ++ report_of (listener event l).0)
      ∙ ap (λ s. some (publish event listeners (listener event l).1, s))
          (append_assoc reports (report_of (listener event l).0)
            (reports_of event listeners (listener event l).1))
