-- ===== src/Auth/Clients/Hops.antt =====
-- auth/throttle.go: the hops of a request through trusted proxies.
use temporal_agent.Common.{
  ◌≡◌, refl, Bool, true, false, ◌||◌, Option, List, [], ◌∷◌, ◌++◌, arith, all, ◌==◌, Text,
  text_eq_iff, text_equality, number_equality,
}
use temporal_agent.Auth.Clients.{
  ClientAddrs, Request, trusted, peer_addr, hops_of, rightmost, client_addr,
}

module _ {Addr Prefix : Type 0} (trim : Text → Text) (parse_addr : Text → Option Addr)
    (holds_addr : Prefix → Addr → Bool) (split_host_port : Text → Option Text) where
  -- A hop that names nobody but a trusted proxy.
  unfoldable pub skipped : ClientAddrs Prefix → Text → Bool
  skipped c h = (trim h == []) || trusted trim parse_addr holds_addr split_host_port c (trim h)

  rightmost-skipped :
      (c : ClientAddrs Prefix) (hs : List Text)
      → all (skipped c) hs ≡ true
      → rightmost trim parse_addr holds_addr split_host_port c hs ≡ []
  unfolding rightmost skipped
  rightmost-skipped c [] e = refl
  rightmost-skipped c (h ∷ hs) e = ground (arith, rightmost-skipped c hs)

  rightmost-append :
      (c : ClientAddrs Prefix) (left : List Text) (h : Text) (right : List Text)
      → all (skipped c) right ≡ true
      → skipped c h ≡ false
      → rightmost trim parse_addr holds_addr split_host_port c (left ++ (h ∷ right)) ≡ trim h
  unfolding rightmost skipped
  rightmost-append c [] h right e k =
      ground (arith, rightmost-skipped c right e, text_eq_iff [] [], text_eq_iff (trim h) [])
  rightmost-append c (x ∷ left) h right e k = ground (arith, rightmost-append c left h right e k)

  -- Behind a trusted proxy, the address is the last hop that is neither empty nor a trusted proxy,
  -- whatever the client wrote in the hops before it.
  pub client_addr-hop :
      (c : ClientAddrs Prefix) (r : Request) (left : List Text) (h : Text) (right : List Text)
      → trusted trim parse_addr holds_addr split_host_port c
          (peer_addr trim parse_addr holds_addr split_host_port r)
        ≡ true
      → hops_of trim parse_addr holds_addr split_host_port r.forwarded ≡ left ++ (h ∷ right)
      → all (skipped c) right ≡ true
      → skipped c h ≡ false
      → client_addr trim parse_addr holds_addr split_host_port c r ≡ trim h
  unfolding client_addr
  client_addr-hop c r left h right t e s k = rw (t, e) (rightmost-append c left h right s k)
