-- ===== src/Events/Delivered.antt =====
-- Which handler gets which event, and how often (src/application/events and src/domain/base).
use nestjs_ddd.Prelude.{
  ◌≡◌, refl, ◌∙◌, ap, sym, Bool, List, [], ◌∷◌, ◌++◌, append-nil, append_assoc, map, keep, str_eq,
  arith, Bool-cases, inl, inr,
}
use nestjs_ddd.Events.{
  DomainEvent, DomainEventHandler, Dispatch, published, handler_failed, dispatch, publish_one,
  publish, AggregateRoot, add_event, pull_events,
}

-- The handler and the event of a call, whether it failed or not.
abbrev pub call_of : Dispatch → DomainEventHandler × DomainEvent
call_of (published h e) = (h, e)
call_of (handler_failed h e) = (h, e)

abbrev pub handles : DomainEvent → DomainEventHandler → Bool
handles e h = str_eq h.event_name e.name

-- Each event in order with each of its handlers, in order.
abbrev pub due :
    List DomainEventHandler → List DomainEvent → List (DomainEventHandler × DomainEvent)
due hs [] = []
due hs (e ∷ es) = map (λ h. (h, e)) (keep (handles e) hs) ++ due hs es

map_calls-append :
    (xs ys : List Dispatch) → map call_of (xs ++ ys) ≡ map call_of xs ++ map call_of ys
map_calls-append [] ys = refl
map_calls-append (x ∷ xs) ys =
    ap (λ (zs : List (DomainEventHandler × DomainEvent)). call_of x ∷ zs) (map_calls-append xs ys)

module _ {W : Type 0} (handle : DomainEventHandler → DomainEvent → W → Bool × W) where
  call_of-dispatch :
      (h : DomainEventHandler) (e : DomainEvent) (w : W)
      → call_of (dispatch handle h e w).0 ≡ (h, e)
  unfolding dispatch
  call_of-dispatch h e w = ground arith

  publish_one-calls :
      (hs : List DomainEventHandler) (e : DomainEvent) (w : W)
      → map call_of (publish_one handle hs e w).0 ≡ map (λ h. (h, e)) (keep (handles e) hs)
  unfolding publish_one
  publish_one-calls [] e w = refl
  publish_one-calls (h ∷ hs) e w = elim (Bool-cases (str_eq h.event_name e.name)) [
    | inl due_now ↦
        rw due_now
          (λ i. call_of-dispatch h e w i ∷ publish_one-calls hs e (dispatch handle h e w).1 i)
    | inr skipped ↦ rw skipped (publish_one-calls hs e w)
  ]

  -- Every event is handed to each of its handlers exactly once, in the order of the events and of
  -- the handlers, whichever of the handlers fail and whatever they do.
  pub publish-due :
      (hs : List DomainEventHandler) (es : List DomainEvent) (w : W)
      → map call_of (publish handle hs es w).0 ≡ due hs es
  unfolding publish
  publish-due hs [] w = refl
  publish-due hs (e ∷ es) w =
      map_calls-append (publish_one handle hs e w).0 _
      ∙ rw (publish_one-calls hs e w) (rw (publish-due hs es (publish_one handle hs e w).1) refl)

due-append :
    (hs : List DomainEventHandler) (xs ys : List DomainEvent)
    → due hs (xs ++ ys) ≡ due hs xs ++ due hs ys
due-append hs [] ys = refl
due-append hs (x ∷ xs) ys =
    ap
      (λ (rest : List (DomainEventHandler × DomainEvent)).
        map (λ h. (h, x)) (keep (handles x) hs) ++ rest)
      (due-append hs xs ys)
    ∙ sym (append_assoc (map (λ h. (h, x)) (keep (handles x) hs)) (due hs xs) (due hs ys))

-- What happens to an aggregate: it records an event, or it is saved, and its events are pulled and
-- published.
pub data Operation : Type 0 where
  records : DomainEvent → Operation
  is_saved : Operation

-- The events that are recorded.
abbrev pub recorded : List Operation → List DomainEvent
recorded [] = []
recorded (records e ∷ ops) = e ∷ recorded ops
recorded (is_saved ∷ ops) = recorded ops

module _ {W : Type 0} (handle : DomainEventHandler → DomainEvent → W → Bool × W) where
  unfoldable pub run :
      List DomainEventHandler → List Operation → AggregateRoot → W → List Dispatch × AggregateRoot
  unfolding add_event pull_events publish
  run hs [] a w = ([], a)
  run hs (records e ∷ ops) a w = run hs ops (add_event e a) w
  run hs (is_saved ∷ ops) a w =
      let (events, a') = pull_events a in
      let (ds, w') = publish handle hs events w in
      let others = run hs ops a' w' in (ds ++ others.0, others.1)

  -- However an aggregate records events and is saved in between, each event is handed to each of its
  -- handlers once, in the order of recording: the calls that were made, with those that are due for
  -- the events not yet pulled, are those that are due for all that was recorded.
  pub run-due :
      (hs : List DomainEventHandler) (ops : List Operation) (a : AggregateRoot) (w : W)
      → map call_of (run hs ops a w).0 ++ due hs (run hs ops a w).1.events
        ≡ due hs (a.events ++ recorded ops)
  unfolding run add_event pull_events
  run-due hs [] a w = ap (due hs) (sym (append-nil a.events))
  run-due hs (records e ∷ ops) a w =
      run-due hs ops (add_event e a) w ∙ ap (due hs) (append_assoc a.events (e ∷ []) (recorded ops))
  run-due hs (is_saved ∷ ops) a w =
      let ds = publish handle hs a.events w in
      let rest = run hs ops (record a { events = [] }) ds.1 in
      let later = due hs rest.1.events in
      ap (λ (calls : List (DomainEventHandler × DomainEvent)). calls ++ later)
        (map_calls-append ds.0 rest.0)
      ∙ append_assoc (map call_of ds.0) (map call_of rest.0) later
      ∙ rw (publish-due handle hs a.events w) (
          ap (λ (calls : List (DomainEventHandler × DomainEvent)). due hs a.events ++ calls)
            (run-due hs ops (record a { events = [] }) ds.1))
      ∙ sym (due-append hs a.events (recorded ops))
