-- ===== src/Access/ClientIp.antt =====
-- internal/api/clientip.go: the address that a request came from, seen through trusted proxies. The
-- addresses and ranges of net/netip with their text, and `net.SplitHostPort`, are parameters.
use smokeng.Common.{
  ℕ, ◌==◌, Bool, Option, none, some, List, [], ◌∷◌, ◌++◌, reverse, any, if◌then◌else◌,
}
use smokeng.Common.Text.{trim_space}

-- strings.Join with ",", as it is called.
unfoldable pub join_comma : List (List ℕ) → List ℕ
join_comma [] = []
join_comma (s ∷ []) = s
join_comma (s ∷ t ∷ more) = s ++ 44 ∷ join_comma (t ∷ more)

abbrev pub prepend : ℕ → List (List ℕ) → List (List ℕ)
prepend c [] = (c ∷ []) ∷ []
prepend c (s ∷ more) = (c ∷ s) ∷ more

-- strings.Split at ",".
unfoldable pub split_comma : List ℕ → List (List ℕ)
split_comma [] = [] ∷ []
split_comma (c ∷ s) = let rest = split_comma s in if c == 44 then [] ∷ rest else prepend c rest

-- The operations of net/netip and net that are used.
pub record Net (Addr Prefix : Type 0) : Type 0 where
  pub parse_addr : List ℕ → Option Addr
  pub has_zone : Addr → Bool
  pub unmap : Addr → Addr
  pub text_of : Addr → List ℕ
  pub contains : Prefix → Addr → Bool
  pub split_host_port : List ℕ → Option (List ℕ)

module _ {Addr Prefix : Type 0} (net : Net Addr Prefix) where
  unfoldable pub parse_ip : List ℕ → Option Addr
  parse_ip s = elim (net.parse_addr s) [
    | none ↦ none
    | some ip ↦ if net.has_zone ip then none else some (net.unmap ip)
  ]

  -- TrustedProxies.has
  unfoldable pub has : List Prefix → Addr → Bool
  unfolding any
  has trusted ip = any (λ p. net.contains p ip) trusted

  -- The loop of `clientIP` over the hops, the last one first.
  unfoldable pub walk : List Prefix → List ℕ → List (List ℕ) → List ℕ
  unfolding parse_ip has
  walk trusted host [] = host
  walk trusted host (hop ∷ hops) = elim (parse_ip (trim_space hop)) [
    | none ↦ host
    | some ip ↦
        let further = walk trusted (net.text_of ip) hops in
        if has trusted ip then further else net.text_of ip
  ]

  unfoldable pub peer_host : List ℕ → List ℕ
  peer_host remote = elim (net.split_host_port remote) [ none ↦ remote | some host ↦ host ]

  -- `clientIP`, once the values of X-Forwarded-For are joined.
  unfoldable pub client_of : List Prefix → List ℕ → List ℕ → List ℕ
  unfolding parse_ip has walk peer_host split_comma
  client_of trusted remote forwarded =
      let host = peer_host remote in
      elim (parse_ip host) [
        | none ↦ host
        | some peer ↦
            let seen = walk trusted host (reverse (split_comma forwarded)) in
            if has trusted peer then seen else host
      ]

  -- `clientIP`, of `r.RemoteAddr` and the values of X-Forwarded-For.
  unfoldable pub client_ip : List Prefix → List ℕ → List (List ℕ) → List ℕ
  unfolding client_of join_comma
  client_ip trusted remote values = client_of trusted remote (join_comma values)
