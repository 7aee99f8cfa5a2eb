-- ===== src/Access/Forwarded.antt =====
-- What a client writes into X-Forwarded-For, against `clientIP` of internal/api/clientip.go.
use smokeng.Common.{
  ℕ, ◌==◌, ◌≡◌, refl, sym, ap, ◌∙◌, ◌⊎◌, Bool, true, false, not, ◌&&◌, if◌then◌else◌, none, some,
  List, [], ◌∷◌, ◌++◌, reverse, any, inl, inr, Bool-cases, Option-cases,
}
use mathlib.Core.List.{append_assoc, reverse-append}
use smokeng.Common.Text.{trim_space}
use smokeng.Access.Session.{any-reverse}
use smokeng.Access.ClientIp.{
  Net, join_comma, split_comma, parse_ip, has, walk, peer_host, client_of, client_ip,
}

split_comma-cons : (s : List ℕ) → (h : List ℕ) × (rest : List (List ℕ)) × (split_comma s ≡ h ∷ rest)
unfolding split_comma
split_comma-cons [] = ([], [], refl)
split_comma-cons (c ∷ s) =
    let (h, rest, e) = split_comma-cons s in
    elim (Bool-cases (c == 44)) [
      | inl comma ↦ ([], split_comma s, rw (comma, split_comma) refl)
      | inr other ↦ (c ∷ h, rest, rw (other, e, split_comma) refl)
    ]

-- A comma between two texts separates their hops.
split_comma-append : (s t : List ℕ) → split_comma (s ++ 44 ∷ t) ≡ split_comma s ++ split_comma t
unfolding split_comma
split_comma-append [] t = refl
split_comma-append (c ∷ s) t =
    let (h, rest, e) = split_comma-cons s in
    let ih = split_comma-append s t in
    elim (Bool-cases (c == 44)) [
      | inl comma ↦ rw (comma, ih) refl
      | inr other ↦ rw (other, ih, e) refl
    ]

join_comma-append :
    (s v : List ℕ) (values : List (List ℕ))
    → join_comma ((s ++ 44 ∷ v) ∷ values) ≡ s ++ 44 ∷ join_comma (v ∷ values)
unfolding join_comma
join_comma-append s v [] = refl
join_comma-append s v (u ∷ values) = append_assoc s (44 ∷ v) (44 ∷ join_comma (u ∷ values))

module _ {Addr Prefix : Type 0} (net : Net Addr Prefix) where
  -- A text that is an address in one of the ranges, without a zone.
  unfoldable pub is_trusted : List Prefix → List ℕ → Bool
  unfolding any
  is_trusted trusted text = elim (net.parse_addr text) [
    | none ↦ false
    | some ip ↦ not (net.has_zone ip) && any (λ p. net.contains p (net.unmap ip)) trusted
  ]

  abbrev pub ends_chain : List Prefix → List ℕ → Bool
  ends_chain trusted hop = not (is_trusted trusted (trim_space hop))

  is_trusted-no_ip :
      (trusted : List Prefix) (text : List ℕ)
      → parse_ip net text ≡ none
      → is_trusted trusted text ≡ false
  unfolding is_trusted parse_ip
  is_trusted-no_ip trusted text h = elim (Option-cases (net.parse_addr text)) [
    | inl e ↦ rw (e, is_trusted) refl
    | inr (ip, e) ↦ elim (Bool-cases (net.has_zone ip)) [
      | inl z ↦ rw (e, z, is_trusted) refl
      | inr z ↦ cc (rw (e, z, parse_ip) at h)
    ]
  ]

  is_trusted-has :
      (trusted : List Prefix) (text : List ℕ) (ip : Addr)
      → parse_ip net text ≡ some ip
      → is_trusted trusted text ≡ has net trusted ip
  unfolding is_trusted parse_ip has
  is_trusted-has trusted text ip h = elim (Option-cases (net.parse_addr text)) [
    | inl e ↦ cc (rw (e, parse_ip) at h)
    | inr (ip', e) ↦ elim (Bool-cases (net.has_zone ip')) [
      | inl z ↦ cc (rw (e, z, parse_ip) at h)
      | inr z ↦
          let is : net.unmap ip' ≡ ip = cc (rw (e, z, parse_ip) at h) in
          rw (e, z, is_trusted) (ap (λ a. any (λ p. net.contains p a) trusted) is)
    ]
  ]

  walk-append :
      (trusted : List Prefix) (host : List ℕ) (hops more : List (List ℕ))
      → any (ends_chain trusted) hops ≡ true
      → walk net trusted host (hops ++ more) ≡ walk net trusted host hops
  unfolding walk any
  walk-append trusted host [] more h = cc
  walk-append trusted host (hop ∷ hops) more h =
      elim (Option-cases (parse_ip net (trim_space hop))) [
        | inl e ↦ rw (e, walk) refl
        | inr (ip, e) ↦ elim (Bool-cases (has net trusted ip)) [
          | inr own ↦ rw (e, own, walk) refl
          | inl on ↦
              let goes_on : is_trusted trusted (trim_space hop) ≡ true =
                is_trusted-has trusted (trim_space hop) ip e ∙ on in
              rw (e, on, walk)
                (walk-append trusted (net.text_of ip) hops more (rw (goes_on, any) at h))
        ]
      ]

  loop-append :
      (trusted : List Prefix) (host s t : List ℕ)
      → any (ends_chain trusted) (split_comma t) ≡ true
      → walk net trusted host (reverse (split_comma (s ++ 44 ∷ t)))
        ≡ walk net trusted host (reverse (split_comma t))
  loop-append trusted host s t h =
      ap (λ hops. walk net trusted host (reverse hops)) (split_comma-append s t)
      ∙ ap (walk net trusted host) (reverse-append (split_comma s) (split_comma t))
      ∙ walk-append trusted host (reverse (split_comma t)) (reverse (split_comma s))
          (any-reverse (ends_chain trusted) (split_comma t) ∙ h)

  client_of-append :
      (trusted : List Prefix) (remote s t : List ℕ)
      → any (ends_chain trusted) (split_comma t) ≡ true
      → client_of net trusted remote (s ++ 44 ∷ t) ≡ client_of net trusted remote t
  unfolding client_of
  client_of-append trusted remote s t h =
      elim (Option-cases (parse_ip net (peer_host net remote))) [
        | inl e ↦ rw (e, client_of) refl
        | inr (peer, e) ↦ rw (e, client_of, loop-append trusted (peer_host net remote) s t h) refl
      ]

  -- The peer's own address stands where the peer is not trusted.
  client_of-peer :
      (trusted : List Prefix) (remote s : List ℕ)
      → is_trusted trusted (peer_host net remote) ≡ false
      → client_of net trusted remote s ≡ peer_host net remote
  unfolding client_of
  client_of-peer trusted remote s h = elim (Option-cases (parse_ip net (peer_host net remote))) [
    | inl e ↦ rw (e, client_of) refl
    | inr (peer, e) ↦
        let own : has net trusted peer ≡ false =
          sym (is_trusted-has trusted (peer_host net remote) peer e) ∙ h in
        rw (e, own, client_of) refl
  ]

  -- What a header can do is up to the peer that sent it and the hops that end the chain of trust.
  abbrev pub Unforged : List Prefix → List ℕ → List ℕ → List (List ℕ) → Type 0
  Unforged trusted remote value values =
      (is_trusted trusted (peer_host net remote) ≡ false)
      ⊎ (any (ends_chain trusted) (split_comma (join_comma (value ∷ values))) ≡ true)

  -- What is read of the values where nothing stands to the left of them.
  abbrev pub believed : List Prefix → List ℕ → List (List ℕ) → List ℕ
  believed trusted remote values =
      if is_trusted trusted (peer_host net remote)
      then client_ip net trusted remote values
      else peer_host net remote

  -- What stands to the left of the hop that ends the chain of trust makes no difference. Where the
  -- peer is not trusted, or a hop of the values of X-Forwarded-For is no address or is not trusted:
  -- with anything to the left of these values, as another value before them or as text before a
  -- comma in the first one, the address is the peer's own if the peer is not trusted, and otherwise
  -- the one that these values give alone.
  pub client_ip-Forged :
      (trusted : List Prefix) (remote forged value : List ℕ) (values : List (List ℕ))
      → Unforged trusted remote value values
      → (client_ip net trusted remote (forged ∷ value ∷ values)
          ≡ believed trusted remote (value ∷ values))
        × (client_ip net trusted remote ((forged ++ 44 ∷ value) ∷ values)
            ≡ believed trusted remote (value ∷ values))
  unfolding client_ip join_comma
  client_ip-Forged trusted remote forged value values h =
      let last = join_comma (value ∷ values) in
      let same : client_of net trusted remote (forged ++ 44 ∷ last)
          ≡ believed trusted remote (value ∷ values) =
        elim (Bool-cases (is_trusted trusted (peer_host net remote))) [
          | inr own ↦ rw own (client_of-peer trusted remote (forged ++ 44 ∷ last) own)
          | inl on ↦ elim h [
            | inl own ↦ cc
            | inr ends ↦ rw on (client_of-append trusted remote forged last ends)
          ]
        ] in
      (same, ap (client_of net trusted remote) (join_comma-append forged value values) ∙ same)
