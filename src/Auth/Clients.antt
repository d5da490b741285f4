-- ===== src/Auth/Clients.antt =====
-- auth/throttle.go: the address a request comes from, behind proxies that are trusted or not.
-- net/netip's addresses and ranges, net.SplitHostPort and strings.TrimSpace are parameters.
pub mod Hops
mod Samples
use temporal_agent.Common.{
  ℕ, ◌+◌, ◌-◌, ◌/◌, ap, Bool, true, false, not, ◌&&◌, ◌||◌, Option, none, some, List, [], ◌∷◌, ◌++◌,
  map, ltb, eqb, if◌then◌else◌, on_some, length, any, ◌==◌, Text, text, text_eq, text_equality,
  number_equality,
}

-- strings.Split at a comma.
pub split_commas : Text → List Text
split_commas [] = [] ∷ []
split_commas (c ∷ cs) = add_char (eqb c 44) c (split_commas cs)
  where
    add_char : Bool → ℕ → List Text → List Text
    add_char true c parts = [] ∷ parts
    add_char false c [] = (c ∷ []) ∷ []
    add_char false c (part ∷ parts) = (c ∷ part) ∷ parts

pub record ClientAddrs (Prefix : Type 0) : Type 0 where
  pub direct : Bool
  pub trusted_proxies : List Prefix

-- `peer` is r.RemoteAddr, `forwarded` the values of X-Forwarded-For.
pub record Request : Type 0 where
  pub peer : Text
  pub forwarded : List Text

pub known : {Prefix : Type 0} → ClientAddrs Prefix → Bool
known c = c.direct || ltb 0 (length c.trusted_proxies)

module _ {Addr Prefix : Type 0} (trim : Text → Text) (parse_addr : Text → Option Addr)
    (parse_prefix : Text → Option Prefix) (single : Addr → Prefix) (masked : Prefix → Prefix) where
  -- The range that an item of the list names: a range, or one address.
  parse_item : Text → Option Prefix
  parse_item item = one_of (parse_prefix item) (parse_addr item)
    where
      one_of : Option Prefix → Option Addr → Option Prefix
      one_of (some prefix) a = some (masked prefix)
      one_of none (some a) = some (masked (single a))
      one_of none none = none

  add_item : Text → Option Prefix → Option (List Prefix) → Option (List Prefix)
  add_item [] prefix rest = rest
  add_item (c ∷ cs) none rest = none
  add_item (c ∷ cs) (some prefix) rest = on_some (λ ps. prefix ∷ ps) rest

  parse_items : List Text → Option (List Prefix)
  parse_items [] = some []
  parse_items (item ∷ items) = add_item (trim item) (parse_item (trim item)) (parse_items items)

  -- `none` is the error that an item is neither.
  pub parse_client_addrs : Text → Option (ClientAddrs Prefix)
  parse_client_addrs spec =
      if trim spec == []
      then some (record { direct = false; trusted_proxies = [] })
      else if trim spec == text "none"
      then some (record { direct = true; trusted_proxies = [] })
      else on_some (λ ps. record { direct = false; trusted_proxies = ps })
          (parse_items (split_commas (trim spec)))

module _ {Addr Prefix : Type 0} (trim : Text → Text) (parse_addr : Text → Option Addr)
    (holds_addr : Prefix → Addr → Bool) (split_host_port : Text → Option Text) where
  trusted_by : List Prefix → Option Addr → Bool
  trusted_by proxies none = false
  trusted_by proxies (some a) = any (λ p. holds_addr p a) proxies

  pub trusted : ClientAddrs Prefix → Text → Bool
  unfolding trusted_by
  trusted c addr = trusted_by c.trusted_proxies (parse_addr addr)

  pub peer_addr : Request → Text
  peer_addr r = host_or (split_host_port r.peer)
    where
      host_or : Option Text → Text
      host_or none = r.peer
      host_or (some host) = host

  pub hops_of : List Text → List Text
  unfolding split_commas
  hops_of [] = []
  hops_of (h ∷ hs) = split_commas h ++ hops_of hs

  -- The hop that the loop from the last stops at, or "".
  pub rightmost : ClientAddrs Prefix → List Text → Text
  rightmost c [] = []
  rightmost c (h ∷ hs) =
      let rest = rightmost c hs in
      if not (rest == [])
      then rest
      else if not (trim h == []) && not (trusted c (trim h))
      then trim h
      else []

  pub client_addr : ClientAddrs Prefix → Request → Text
  unfolding hops_of rightmost
  client_addr c r =
      if trusted c (peer_addr r) then rightmost c (hops_of r.forwarded) else peer_addr r
