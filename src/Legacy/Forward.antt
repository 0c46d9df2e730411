-- ===== src/Legacy/Forward.antt =====
-- `forward` of src/infrastructure/legacy/legacy-forwarder.ts: what the client's response gets, as the
-- events of the outbound request come.
pub mod Answers
use nestjs_ddd.Prelude.{
  ℕ, ◌+◌, Bool, true, false, not, Option, none, some, List, [], ◌∷◌, ◌++◌, length, ◌==◌, or_else,
  if◌then◌else◌,
}

pub data OutboundEvent : Type 0 where
  on_timeout on_error on_aborted : OutboundEvent
  on_response : Option ℕ → OutboundEvent

-- The statuses given to `res.writeHead`, in order, and whether `res` or `outbound` was destroyed.
pub record Exchange : Type 0 where
  pub timed_out : Bool
  pub heads : List ℕ
  pub response_destroyed : Bool
  pub outbound_destroyed : Bool

abbrev pub new_exchange : Exchange
new_exchange = record {
  timed_out = false;
  heads = [];
  response_destroyed = false;
  outbound_destroyed = false;
}

unfoldable pub on_outbound : OutboundEvent → Exchange → Exchange
on_outbound on_timeout x = record x { timed_out = true; outbound_destroyed = true }
on_outbound (on_response status) x = record x { heads = x.heads ++ or_else status 502 ∷ [] }
on_outbound on_error x =
    if length x.heads == 0
    then record x { heads = x.heads ++ (if x.timed_out then 504 else 502) ∷ [] }
    else record x { response_destroyed = true }
on_outbound on_aborted x = record x { outbound_destroyed = true }

unfoldable pub on_outbounds : List OutboundEvent → Exchange → Exchange
unfolding on_outbound
on_outbounds [] x = x
on_outbounds (e ∷ es) x = on_outbounds es (on_outbound e x)
