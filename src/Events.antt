-- ===== src/Events.antt =====
-- Domain events: src/domain/base/aggregate-root.ts records them, and
-- src/application/events/in-process-domain-event-publisher.ts hands them to their handlers. What a handler
-- does is a parameter: from the state of the world to whether it succeeds and the state that it leaves.
pub mod Delivered
mod Tests
use nestjs_ddd.Prelude.{
  ℕ, Bool, true, false, ◌&&◌, String, List, [], ◌∷◌, ◌++◌, str_eq, if◌then◌else◌,
}

pub record DomainEvent : Type 0 where
  pub name : String
  pub occurred_at : ℕ

pub record DomainEventHandler : Type 0 where
  pub event_name : String
  pub class_name : String

-- What the publisher does for a handler and an event: it counts the success, or it logs and counts the
-- failure.
pub data Dispatch : Type 0 where
  published handler_failed : DomainEventHandler → DomainEvent → Dispatch

module _ {W : Type 0} (handle : DomainEventHandler → DomainEvent → W → Bool × W) where
  -- The `try` of the inner loop.
  unfoldable pub dispatch : DomainEventHandler → DomainEvent → W → Dispatch × W
  dispatch h e w =
      let (succeeds, w') = handle h e w in
      (if succeeds then published h e else handler_failed h e, w')

  -- The inner loop, over the handlers.
  unfoldable pub publish_one : List DomainEventHandler → DomainEvent → W → List Dispatch × W
  unfolding dispatch
  publish_one [] e w = ([], w)
  publish_one (h ∷ hs) e w =
      let (d, w') = dispatch h e w in
      let others = publish_one hs e (if str_eq h.event_name e.name then w' else w) in
      (if str_eq h.event_name e.name then d ∷ others.0 else others.0, others.1)

  -- `publish`
  unfoldable pub publish : List DomainEventHandler → List DomainEvent → W → List Dispatch × W
  unfolding publish_one
  publish hs [] w = ([], w)
  publish hs (e ∷ es) w =
      let (ds, w') = publish_one hs e w in
      let others = publish hs es w' in (ds ++ others.0, others.1)

-- `AggregateRoot`: the events that were recorded and not pulled.
pub record AggregateRoot : Type 0 where
  pub events : List DomainEvent

abbrev pub new_aggregate : AggregateRoot
new_aggregate = record { events = [] }

-- `addEvent`
unfoldable pub add_event : DomainEvent → AggregateRoot → AggregateRoot
add_event e a = record a { events = a.events ++ e ∷ [] }

-- `pullEvents`
unfoldable pub pull_events : AggregateRoot → List DomainEvent × AggregateRoot
pull_events a = (a.events, record a { events = [] })
