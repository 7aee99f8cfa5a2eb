-- ===== src/Probe/Lookups.antt =====
-- What a caller of the cache of internal/probe/dnscache relies on.
use smokeng.Common.{
  ℕ, ◌≡◌, refl, ap, ◌∙◌, ◌⊎◌, inl, inr, Bool, true, Option, none, some, List, ◌∷◌, In, Bool-cases,
  Option-cases,
}
use mathlib.Core.Path.{subst}
use smokeng.Common.Result.{ok, Result-cases, err-ne-ok}
use smokeng.Probe.Clock.{Instant}
use smokeng.Probe.DnsCache.{
  Key, Answers, Entry, Cache, put, resolve, look, store_first, refreshed, refresh, after_look,
  lookup, family_matches, remove_one,
}
use smokeng.Probe.Offers.{Query, Offered, Known, resolve-Offered, same_key_refl}
use smokeng.Probe.Cached.{Reached, Known-later, IsRenewed, refreshed-IsRenewed, Reached-IsCached}

module _ {Addr : Type 0} where
  -- A refresh never meets a missing entry, so it never panics. In every state that is reached, the
  -- end of a refresh that runs leaves an entry under its key that is no longer marked as refreshing
  -- and is kept from 30 s to a day; its address was just offered by a record of the key's family,
  -- or, where no server gave one, is the one that it had, with a retry after 30 s.
  pub refresh-IsRenewed :
      (history : List (Query Addr)) (c : Cache Addr) (k : Key) (answers : Answers Addr)
      (now : Instant)
      → Reached history c
      → In k c.running
      → (c' : Cache Addr) × (refresh k answers now c ≡ some c')
        × (e : Entry Addr) × (c.entries k ≡ some e)
        × (f : Entry Addr) × (c'.entries k ≡ some f)
        × IsRenewed k e answers now f
  unfolding refresh put
  refresh-IsRenewed history c k answers now r i =
      let (e, there) = (Reached-IsCached history c r).present k i in
      let f = refreshed e (resolve k.family answers) now in
      let made : Cache Addr = record {
        entries = put k f c.entries;
        running = remove_one k c.running;
      } in
      (
        made,
        rw (there, refresh) refl,
        e,
        there,
        f,
        rw (same_key_refl k, put) refl,
        refreshed-IsRenewed k e answers now,
      )

  look-Known :
      (history : List (Query Addr)) (c : Cache Addr) (k : Key) (now : Instant) (x : Addr)
      → Reached history c
      → (look k now c).0 ≡ some x
      → Known k x history
  unfolding look
  look-Known history c k now x r h = elim (Option-cases (c.entries k)) [
    | inl new ↦ cc (rw (new, look) at h)
    | inr (e, there) ↦
        let same : e.addr ≡ x = cc (rw (there, look) at h) in
        subst (λ y. Known k y history) same ((Reached-IsCached history c r).known k e there)
  ]

  after_look-Known :
      (history : List (Query Addr)) (k : Key) (answers : Answers Addr) (later : Instant)
      (seen : Option Addr × Cache Addr) (x : Addr)
      → ((y : Addr) → seen.0 ≡ some y → Known k y history)
      → (after_look k answers later seen).0 ≡ ok x
      → Known k x (record { key = k; answers = answers } ∷ history)
  unfolding after_look store_first
  after_look-Known history k answers later (some y, c) x known h =
      let same : y ≡ x = cc h in
      Known-later k x (record { key = k; answers = answers }) history (known x (ap some same))
  after_look-Known history k answers later (none, c) x known h =
      elim (Result-cases (resolve k.family answers)) [
        | inr (error, failed) ↦ absurd (err-ne-ok (rw (failed, after_look, store_first) at h))
        | inl ((y, ttl), found) ↦
            let same : y ≡ x = cc (rw (found, after_look, store_first) at h) in
            let query : Query Addr = record { key = k; answers = answers } in
            let (offered, low, high) = resolve-Offered k.family answers y ttl found in
            (query, inl refl, refl, subst (λ z. Offered k.family z answers) same offered)
      ]

  module _ (is4 is6 is4in6 : Addr → Bool) (parse_addr : List ℕ → Option Addr) where
    -- An address comes of what was asked for. In every state that is reached, what `Lookup`
    -- returns is the host itself as a literal address that passes the test on the family, or it
    -- stood in a record of the type of the key's family that a server sent to a query for this key,
    -- in an earlier query or in this call's own.
    pub lookup-Known :
        (history : List (Query Addr)) (c : Cache Addr) (k : Key) (now : Instant)
        (answers : Answers Addr) (later : Instant) (x : Addr)
        → Reached history c
        → (lookup is4 is6 is4in6 parse_addr k now answers later c).0 ≡ ok x
        → ((parse_addr k.host ≡ some x) × (family_matches is4 is6 is4in6 x k.family ≡ true))
          ⊎ Known k x (record { key = k; answers = answers } ∷ history)
    unfolding lookup
    lookup-Known history c k now answers later x r h = elim (Option-cases (parse_addr k.host)) [
      | inl name ↦ inr (
          after_look-Known history k answers later (look k now c) x
            (λ y. look-Known history c k now y r) (rw (name, lookup) at h))
      | inr (y, literal) ↦ elim (Bool-cases (family_matches is4 is6 is4in6 y k.family)) [
        | inr other ↦ absurd (err-ne-ok (rw (literal, other, lookup) at h))
        | inl fits ↦
            let same : y ≡ x = cc (rw (literal, fits, lookup) at h) in
            inl (
              literal ∙ ap some same,
              subst (λ z. family_matches is4 is6 is4in6 z k.family ≡ true) same fits,
            )
      ]
    ]
