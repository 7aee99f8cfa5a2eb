-- ===== src/Probe/Cached.antt =====
-- The cache of internal/probe/dnscache over every order in which lookups and refreshes take its lock.
use smokeng.Common.{
  ◌≡◌, refl, sym, ap, ◌∙◌, ◌⊎◌, inl, inr, true, false, not, ◌&&◌, Option, none, some, List, [], ◌∷◌,
  arith, In, Bool-cases, Option-cases,
}
use mathlib.Core.Path.{subst}
use smokeng.Common.Int.{ℤ, ◌≤ℤ◌}
use smokeng.Common.Result.{ok, err, Result-cases, >>=-eq-ok}
use smokeng.Probe.Clock.{Instant, after, add}
use smokeng.Probe.DnsCache.{
  Key, same_key, Answers, LookupError, Entry, Cache, min_ttl, max_ttl, remove_one, put, resolve,
  look, store_first, refreshed, refresh,
}
use smokeng.Probe.Offers.{
  Query, Offered, Known, same_key-eq, same_key_refl, In-remove_one, remove_one-In, resolve-Offered,
  ok_pair, false-ne-true,
}

module _ {Addr : Type 0} where
  -- The states that the critical sections lead to from an empty cache, in every order, with the
  -- queries that were asked so far, the last first. A key is stored whenever it was resolved, also
  -- where another lookup has stored it meanwhile.
  pub data Reached : List (Query Addr) → Cache Addr → Type 0 where
    fresh : Reached [] (record { entries = λ k. none; running = [] })
    looked :
        (history : List (Query Addr)) (c : Cache Addr) (k : Key) (now : Instant)
        → Reached history c
        → Reached history (look k now c).1
    stored :
        (history : List (Query Addr)) (c c' : Cache Addr) (k : Key) (x : Addr)
        (answers : Answers Addr) (now : Instant)
        → Reached history c
        → store_first k answers now c ≡ ok (x, c')
        → Reached (record { key = k; answers = answers } ∷ history) c'
    renewed :
        (history : List (Query Addr)) (c c' : Cache Addr) (k : Key) (answers : Answers Addr)
        (now : Instant)
        → Reached history c
        → In k c.running
        → refresh k answers now c ≡ some c'
        → Reached (record { key = k; answers = answers } ∷ history) c'

  -- What every reached state keeps.
  pub record IsCached (history : List (Query Addr)) (c : Cache Addr) : Type 0 where
    pub present : (k : Key) → In k c.running → (e : Entry Addr) × (c.entries k ≡ some e)
    pub flagged :
        (k : Key) (e : Entry Addr) → c.entries k ≡ some e → e.refreshing ≡ true → In k c.running
    pub known : (k : Key) (e : Entry Addr) → c.entries k ≡ some e → Known k e.addr history

  -- Reading an entry after one was put.
  put-cases :
      (k l : Key) (e f : Entry Addr) (entries : Key → Option (Entry Addr))
      → put k e entries l ≡ some f
      → ((k ≡ l) × (e ≡ f)) ⊎ ((same_key k l ≡ false) × (entries l ≡ some f))
  unfolding put
  put-cases k l e f entries h = elim (Bool-cases (same_key k l)) [
    | inl is ↦ inl (same_key-eq k l is, cc (rw (is, put) at h))
    | inr apart ↦ inr (apart, rw (apart, put) at h)
  ]

  put-present :
      (k l : Key) (e : Entry Addr) (entries : Key → Option (Entry Addr))
      → ((f : Entry Addr) × (entries l ≡ some f)) ⊎ (k ≡ l)
      → (f : Entry Addr) × (put k e entries l ≡ some f)
  unfolding put
  put-present k l e entries h = elim (Bool-cases (same_key k l)) [
    | inl is ↦ (e, rw is refl)
    | inr apart ↦ elim h [
      | inl (f, there) ↦ (f, rw apart there)
      | inr is ↦
          absurd (false-ne-true (sym apart ∙ subst (λ m. same_key k m ≡ true) is (same_key_refl k)))
    ]
  ]

  pub Known-later :
      (k : Key) (x : Addr) (q : Query Addr) (history : List (Query Addr))
      → Known k x history
      → Known k x (q ∷ history)
  Known-later k x q history (p, i, is, offered) = (p, inr i, is, offered)

  -- An entry is put, and the running refreshes change.
  put-IsCached :
      (history later : List (Query Addr)) (c : Cache Addr) (k : Key) (e : Entry Addr)
      (running : List Key)
      → IsCached history c
      → ((l : Key) → In l running → In l c.running ⊎ (k ≡ l))
      → ((l : Key) → same_key k l ≡ false → In l c.running → In l running)
      → (e.refreshing ≡ true → In k running)
      → Known k e.addr later
      → ((l : Key) (x : Addr) → Known l x history → Known l x later)
      → IsCached later (record { entries = put k e c.entries; running = running })
  put-IsCached history later c k e running s was stays flag own others = record {
    present = λ l i.
        put-present k l e c.entries
          (elim (was l i) [ inl j ↦ inl (s.present l j) | inr is ↦ inr is ]);
    flagged = λ l f there on. elim (put-cases k l e f c.entries there) [
      | inl (is, same) ↦
          subst (λ m. In m running) is (flag (ap (λ (g : Entry Addr). g.refreshing) same ∙ on))
      | inr (apart, before) ↦ stays l apart (s.flagged l f before on)
    ];
    known = λ l f there. elim (put-cases k l e f c.entries there) [
      | inl (is, same) ↦
          subst (λ m. Known m f.addr later) is
            (subst (λ (g : Entry Addr). Known k g.addr later) same own)
      | inr (apart, before) ↦ others l f.addr (s.known l f before)
    ];
  }

  abbrev start_refresh : Key → Entry Addr → Cache Addr → Cache Addr
  start_refresh k e c = record {
    entries = put k (record e { refreshing = true }) c.entries;
    running = k ∷ c.running;
  }

  look-cases :
      (k : Key) (now : Instant) (c : Cache Addr)
      → ((look k now c).1 ≡ c)
        ⊎ ((e : Entry Addr) × (c.entries k ≡ some e) × ((look k now c).1 ≡ start_refresh k e c))
  unfolding look
  look-cases k now c = elim (Option-cases (c.entries k)) [
    | inl new ↦ inl (rw (new, look) refl)
    | inr (e, there) ↦ elim (Bool-cases (after now e.expires && not e.refreshing)) [
      | inl due ↦ inr (e, there, rw (there, due, look) refl)
      | inr not_due ↦ inl (rw (there, not_due, look) refl)
    ]
  ]

  look-IsCached :
      (history : List (Query Addr)) (c : Cache Addr) (k : Key) (now : Instant)
      → IsCached history c
      → IsCached history (look k now c).1
  look-IsCached history c k now s = elim (look-cases k now c) [
    | inl as_before ↦ subst (IsCached history) (sym as_before) s
    | inr (e, there, started) ↦ subst (IsCached history) (sym started) (
        put-IsCached history history c k (record e { refreshing = true }) (k ∷ c.running) s
          (λ l i. elim i [ inl is ↦ inr is | inr j ↦ inl j ]) (λ l apart i. inr i) (λ on. inl refl)
          (s.known k e there) (λ l x known. known))
  ]

  store_first-IsCached :
      (history : List (Query Addr)) (c c' : Cache Addr) (k : Key) (x : Addr)
      (answers : Answers Addr) (now : Instant)
      → IsCached history c
      → store_first k answers now c ≡ ok (x, c')
      → IsCached (record { key = k; answers = answers } ∷ history) c'
  unfolding store_first
  store_first-IsCached history c c' k x answers now s h =
      let ((y, ttl), found, last) = >>=-eq-ok (resolve k.family answers) _ h in
      let (offered, low, high) = resolve-Offered k.family answers y ttl found in
      let query : Query Addr = record { key = k; answers = answers } in
      let e : Entry Addr = record { addr = y; expires = add now ttl; refreshing = false } in
      subst (IsCached (query ∷ history)) (ok_pair y x _ c' last).1 (
        put-IsCached history (query ∷ history) c k e c.running s (λ l i. inl i) (λ l apart i. i)
          (λ on. absurd (false-ne-true on)) (query, inl refl, refl, offered)
          (λ l x. Known-later l x query history))

  refresh-cases :
      (k : Key) (answers : Answers Addr) (now : Instant) (c c' : Cache Addr)
      → refresh k answers now c ≡ some c'
      → (e : Entry Addr) × (c.entries k ≡ some e)
        × (record {
          entries = put k (refreshed e (resolve k.family answers) now) c.entries;
          running = remove_one k c.running;
        }
            ≡ c')
  unfolding refresh
  refresh-cases k answers now c c' h = elim (Option-cases (c.entries k)) [
    | inl none_there ↦ cc (rw (none_there, refresh) at h)
    | inr (e, there) ↦ (e, there, cc (rw (there, refresh) at h))
  ]

  -- What a refresh makes of an entry: it is no longer refreshing, is kept from 30 s to a day, and has
  -- an address that was just offered, or its old one.
  abbrev pub IsRenewed : Key → Entry Addr → Answers Addr → Instant → Entry Addr → Type 0
  IsRenewed k e answers now f =
      (f.refreshing ≡ false)
      × (Offered k.family f.addr answers
          ⊎ (f.addr ≡ e.addr)
            × (f.expires ≡ add now min_ttl)
            × (error : LookupError) × (resolve k.family answers ≡ err error))
      × (ttl : ℤ) × (f.expires ≡ add now ttl)
      × (min_ttl ≤ℤ ttl)
      × (ttl ≤ℤ max_ttl)

  pub refreshed-IsRenewed :
      (k : Key) (e : Entry Addr) (answers : Answers Addr) (now : Instant)
      → IsRenewed k e answers now (refreshed e (resolve k.family answers) now)
  unfolding refreshed
  refreshed-IsRenewed k e answers now = elim (Result-cases (resolve k.family answers)) [
    | inl ((x, ttl), found) ↦
        let (offered, low, high) = resolve-Offered k.family answers x ttl found in
        rw found (refl, inl offered, ttl, refl, low, high)
    | inr (error, failed) ↦
        rw failed (refl, inr (refl, refl, error, refl), min_ttl, refl, omega arith, omega arith)
  ]

  refresh-IsCached :
      (history : List (Query Addr)) (c c' : Cache Addr) (k : Key) (answers : Answers Addr)
      (now : Instant)
      → IsCached history c
      → refresh k answers now c ≡ some c'
      → IsCached (record { key = k; answers = answers } ∷ history) c'
  refresh-IsCached history c c' k answers now s h =
      let (e, there, last) = refresh-cases k answers now c c' h in
      let query : Query Addr = record { key = k; answers = answers } in
      let f = refreshed e (resolve k.family answers) now in
      let (off, from, ttl, until, low, high) = refreshed-IsRenewed k e answers now in
      subst (IsCached (query ∷ history)) last (
        put-IsCached history (query ∷ history) c k f (remove_one k c.running) s
          (λ l i. inl (remove_one-In k l c.running i))
          (λ l apart i. In-remove_one k l c.running apart i)
          (λ on. absurd (false-ne-true (sym off ∙ on)))
          (elim from [
            | inl offered ↦ (query, inl refl, refl, offered)
            | inr (same, retry, error, failed) ↦
                Known-later k f.addr query history
                  (subst (λ x. Known k x history) (sym same) (s.known k e there))
          ])
          (λ l x. Known-later l x query history))

  pub Reached-IsCached :
      (history : List (Query Addr)) (c : Cache Addr) → Reached history c → IsCached history c
  Reached-IsCached history c fresh = record {
    present = λ k i. absurd i;
    flagged = λ k e there. absurd (cc there);
    known = λ k e there. absurd (cc there);
  }
  Reached-IsCached history c (looked h c1 k now r) =
      look-IsCached h c1 k now (Reached-IsCached h c1 r)
  Reached-IsCached history c (stored h c1 c' k x answers now r did) =
      store_first-IsCached h c1 c' k x answers now (Reached-IsCached h c1 r) did
  Reached-IsCached history c (renewed h c1 c' k answers now r i did) =
      refresh-IsCached h c1 c' k answers now (Reached-IsCached h c1 r) did
