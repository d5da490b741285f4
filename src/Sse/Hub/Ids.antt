-- ===== src/Sse/Hub/Ids.antt =====
-- sse/hub.go: the IDs of a hub's events.
use temporal_agent.Common.{
  ℕ, ◌≤◌, ◌≡◌, true, ◌&&◌, none, some, arith, leb, if◌then◌else◌, ◌==◌, text_eq_iff, text_equality,
  number_equality,
}
use temporal_agent.Store.Decimal.{decimal, value-decimal, digits-decimal}
use temporal_agent.Store.Keys.Cuts.{cut-append, lacks}
use temporal_agent.Sse.Hub.{Hub, event_id, parse, parse_uint, known_seq, max_uint64}

-- An ID that a hub gave is read back as its seq; one with another epoch, or a seq that the hub has
-- not given, is unknown. The epochs hold no dash.
pub parse-event_id :
    (h g : Hub) (n : ℕ)
    → lacks b'-' h.epoch ≡ true
    → lacks b'-' g.epoch ≡ true
    → n ≤ max_uint64
    → parse h (event_id g n) ≡ (if h.epoch == g.epoch && leb n h.seq then some n else none)
unfolding parse event_id parse_uint known_seq
parse-event_id h g n plain plain' small = ground (
  arith,
  cut-append b'-' g.epoch (decimal n) plain',
  digits-decimal n,
  value-decimal n,
  text_eq_iff h.epoch g.epoch,
  text_eq_iff g.epoch h.epoch,
)
