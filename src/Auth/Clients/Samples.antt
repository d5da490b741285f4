-- ===== src/Auth/Clients/Samples.antt =====
-- A request through two trusted proxies whose client forged a hop.
use temporal_agent.Common.{
  ◌≡◌, refl, false, Option, none, some, [], ◌∷◌, eqb, if◌then◌else◌, Text, text, text_eq,
  text_equality, number_equality,
}
use temporal_agent.Auth.Clients.{
  ClientAddrs, Request, trusted, peer_addr, hops_of, client_addr, split_commas,
}
use temporal_agent.Auth.Clients.Hops.{skipped, client_addr-hop}

abbrev any_addr : Text → Option Text
any_addr t = some t

abbrev drop_spaces : Text → Text
drop_spaces [] = []
drop_spaces (c ∷ cs) = if eqb c 32 then drop_spaces cs else c ∷ drop_spaces cs

abbrev no_port : Text → Option Text
no_port t = none

abbrev proxies : ClientAddrs Text
proxies = record { direct = false; trusted_proxies = text "p1" ∷ text "p2" ∷ [] }

abbrev forged : Request
forged = record { peer = text "p1"; forwarded = text "a, c" ∷ text "p2" ∷ [] }

client_addr-hop_example : client_addr drop_spaces any_addr text_eq no_port proxies forged ≡ text "c"
unfolding trusted peer_addr hops_of split_commas text_eq skipped
client_addr-hop_example =
    client_addr-hop drop_spaces any_addr text_eq no_port proxies forged (text "a" ∷ []) (text " c")
      (text "p2" ∷ []) refl refl refl refl
