-- ===== src/Legacy/Forward/Answers.antt =====
-- The client of a forwarded request gets one answer (src/infrastructure/legacy/legacy-forwarder.ts).
use nestjs_ddd.Prelude.{
  ◌≡◌, refl, Bool, true, false, not, ◌&&◌, ◌||◌, List, [], ◌∷◌, any, length, length-append, arith,
  or_else, if◌then◌else◌,
}
use nestjs_ddd.Legacy.Forward.{
  OutboundEvent, on_timeout, on_error, on_aborted, on_response, Exchange, new_exchange, on_outbound,
  on_outbounds,
}

-- The order in which `node:http` emits the events of a request: at most one response, and none after
-- an error. `over` says whether one of them has come.
abbrev pub follows_order : Bool → List OutboundEvent → Bool
follows_order over [] = true
follows_order over (e ∷ es) =
    let quiet = follows_order over es in
    let done = follows_order true es in
    elim e [
      | on_timeout ↦ quiet
      | on_error ↦ done
      | on_aborted ↦ quiet
      | on_response status ↦ not over && done
    ]

abbrev pub answers_client : OutboundEvent → Bool
answers_client on_error = true
answers_client (on_response status) = true
answers_client _ = false

answers_from :
    (es : List OutboundEvent) (over : Bool) (x : Exchange)
    → follows_order over es ≡ true
    → length x.heads ≡ (if over then 1 else 0)
    → length (on_outbounds es x).heads ≡ (if over || any answers_client es then 1 else 0)
unfolding on_outbounds on_outbound
answers_from [] over x ordered sent = ground arith
answers_from (on_timeout ∷ es) over x ordered sent =
    ground (arith, answers_from es over (on_outbound on_timeout x))
answers_from (on_error ∷ es) over x ordered sent = ground (
  arith,
  answers_from es true (on_outbound on_error x),
  length-append x.heads (504 ∷ []),
  length-append x.heads (502 ∷ []),
)
answers_from (on_aborted ∷ es) over x ordered sent =
    ground (arith, answers_from es over (on_outbound on_aborted x))
answers_from (on_response status ∷ es) over x ordered sent = ground (
  arith,
  answers_from es true (on_outbound (on_response status) x),
  length-append x.heads (or_else status 502 ∷ []),
)

-- The client gets one head, that of the legacy service or one for the error, if either comes, and
-- none if neither does; never two, whatever comes when.
pub on_outbounds-heads :
    (es : List OutboundEvent)
    → follows_order false es ≡ true
    → length (on_outbounds es new_exchange).heads ≡ (if any answers_client es then 1 else 0)
on_outbounds-heads es ordered = answers_from es false new_exchange ordered refl
