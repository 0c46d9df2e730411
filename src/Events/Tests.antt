-- ===== src/Events/Tests.antt =====
-- The theorem on domain events at an aggregate with a handler that fails.
use nestjs_ddd.Prelude.{ℕ, suc, ◌≡◌, refl, Bool, not, List, [], ◌∷◌, ◌++◌, map, str_eq}
use nestjs_ddd.Events.{DomainEvent, DomainEventHandler, published, handler_failed, new_aggregate}
use nestjs_ddd.Events.Delivered.{call_of, due, Operation, records, is_saved, recorded, run, run-due}

abbrev mailer : DomainEventHandler
mailer = record { event_name = "order.placed"; class_name = "Mailer" }

abbrev stock : DomainEventHandler
stock = record { event_name = "order.placed"; class_name = "Stock" }

abbrev placed : DomainEvent
placed = record { name = "order.placed"; occurred_at = 5 }

abbrev paid : DomainEvent
paid = record { name = "order.paid"; occurred_at = 6 }

-- The mailer always fails; the world counts the calls.
abbrev handle : DomainEventHandler → DomainEvent → ℕ → Bool × ℕ
handle h e n = (not (str_eq h.class_name "Mailer"), suc n)

abbrev life : List Operation
life = records placed ∷ is_saved ∷ records paid ∷ is_saved ∷ records placed ∷ []

ran :
    (run handle (mailer ∷ stock ∷ []) life new_aggregate 0).0
    ≡ handler_failed mailer placed ∷ published stock placed ∷ []
unfolding run
ran = refl

run-due_example :
    map call_of (run handle (mailer ∷ stock ∷ []) life new_aggregate 0).0
      ++ due (mailer ∷ stock ∷ []) (run handle (mailer ∷ stock ∷ []) life new_aggregate 0).1.events
    ≡ due (mailer ∷ stock ∷ []) ([] ++ recorded life)
run-due_example = run-due handle (mailer ∷ stock ∷ []) life new_aggregate 0
