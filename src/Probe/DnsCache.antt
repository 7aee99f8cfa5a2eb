-- ===== src/Probe/DnsCache.antt =====
-- internal/probe/dnscache/dnscache.go: addresses of hosts, kept for the time that their records allow.
-- An address of net/netip, its parser and its tests are parameters, and so are the answers of the
-- servers: one for each server asked, `none` where the exchange fails.
use smokeng.Common.{
  ℕ, ◌*◌, Bool, true, false, not, ◌&&◌, ◌||◌, Option, none, some, List, [], ◌∷◌, if◌then◌else◌,
}
use smokeng.Common.Int.{ℤ, pos, ltb_ℤ, mul64}
use smokeng.Common.Text.{codes, same}
use smokeng.Common.Result.{Result, ok, err, ◌>>=◌}
use smokeng.Probe.Clock.{Instant, after, add}
use smokeng.Probe.Schedule.{second}

abbrev pub min_ttl : ℤ
min_ttl = pos (30 * 1000000000)

abbrev pub max_ttl : ℤ
max_ttl = pos (24 * 3600 * 1000000000)

pub record Key : Type 0 where
  pub host : List ℕ
  pub family : List ℕ

unfoldable pub same_key : Key → Key → Bool
same_key k l = same k.host l.host && same k.family l.family

-- A record of an answer, of its type: the address and the seconds it may be kept.
pub data Record (Addr : Type 0) : Type 0 where
  a aaaa : Addr → ℕ → Record Addr
  other_type : Record Addr

-- The answer of each server in turn.
abbrev pub Answers : Type 0 → Type 0
Answers Addr = List (Option (List (Record Addr)))

pub data LookupError : Type 0 where
  not_of_family no_record all_failed : LookupError

pub record Entry (Addr : Type 0) : Type 0 where
  pub addr : Addr
  pub expires : Instant
  pub refreshing : Bool

-- clampTTL, of a `uint32`.
unfoldable pub clamp_ttl : ℕ → ℤ
clamp_ttl ttl =
    let d = mul64 (pos ttl) second in
    let least = (if ltb_ℤ d min_ttl then min_ttl else d) in
    if ltb_ℤ max_ttl least then max_ttl else least

-- The map of entries, and the keys of the goroutines that run `refresh`.
pub record Cache (Addr : Type 0) : Type 0 where
  pub entries : Key → Option (Entry Addr)
  pub running : List Key

unfoldable pub remove_one : Key → List Key → List Key
remove_one k [] = []
remove_one k (l ∷ keys) = if same_key k l then keys else l ∷ remove_one k keys

module _ {Addr : Type 0} where
  -- c.entries[k] = &e
  unfoldable pub put : Key → Entry Addr → (Key → Option (Entry Addr)) → Key → Option (Entry Addr)
  unfolding same_key
  put k e entries l = if same_key k l then some e else entries l

  -- The inner loop of `resolve`: the first record of the family's type.
  unfoldable pub first_record : List ℕ → List (Record Addr) → Result LookupError (Addr × ℤ)
  unfolding clamp_ttl
  first_record family [] = err no_record
  first_record family (a x ttl ∷ records) =
      let rest = first_record family records in
      if same family (codes "v4") then ok (x, clamp_ttl ttl) else rest
  first_record family (aaaa x ttl ∷ records) =
      let rest = first_record family records in
      if same family (codes "v6") then ok (x, clamp_ttl ttl) else rest
  first_record family (other_type ∷ records) = first_record family records

  unfoldable pub resolve : List ℕ → Answers Addr → Result LookupError (Addr × ℤ)
  unfolding first_record
  resolve family [] = err all_failed
  resolve family (none ∷ answers) = resolve family answers
  resolve family (some records ∷ answers) = first_record family records

  -- The first critical section of `Lookup`: an address that the cache has, and the start of a refresh.
  unfoldable pub look : Key → Instant → Cache Addr → Option Addr × Cache Addr
  unfolding put
  look k now c = elim (c.entries k) [
    | none ↦ (none, c)
    | some e ↦ (
      some e.addr,
      if after now e.expires && not e.refreshing
          then record {
            entries = put k (record e { refreshing = true }) c.entries;
            running = k ∷ c.running;
          }
          else c,
    )
  ]

  -- What `Lookup` does on a first lookup: resolve, then the second critical section.
  unfoldable pub store_first :
      Key → Answers Addr → Instant → Cache Addr → Result LookupError (Addr × Cache Addr)
  unfolding resolve put
  store_first k answers now c = do
    (x, ttl) ← resolve k.family answers
    ok (
      x,
      record c {
        entries = put k (record { addr = x; expires = add now ttl; refreshing = false }) c.entries;
      },
    )

  unfoldable pub refreshed : Entry Addr → Result LookupError (Addr × ℤ) → Instant → Entry Addr
  refreshed e (err _) now = record e { expires = add now min_ttl; refreshing = false }
  refreshed e (ok (x, ttl)) now = record e { addr = x; expires = add now ttl; refreshing = false }

  -- `refresh` of an entry; `none` is the panic of a nil entry. The goroutine ends with it.
  unfoldable pub refresh : Key → Answers Addr → Instant → Cache Addr → Option (Cache Addr)
  unfolding resolve put refreshed remove_one
  refresh k answers now c = elim (c.entries k) [
    | none ↦ none
    | some e ↦ some (record {
      entries = put k (refreshed e (resolve k.family answers) now) c.entries;
      running = remove_one k c.running;
    })
  ]

  -- `Lookup` after its first critical section, with no other call before the second, at `later`.
  unfoldable pub after_look :
      Key → Answers Addr → Instant → Option Addr × Cache Addr → Result LookupError Addr × Cache Addr
  unfolding store_first
  after_look k answers later (some x, c) = (ok x, c)
  after_look k answers later (none, c) = elim (store_first k answers later c) [
    | err e ↦ (err e, c)
    | ok r ↦ (ok r.0, r.1)
  ]

  module _ (is4 is6 is4in6 : Addr → Bool) where
    unfoldable pub family_matches : Addr → List ℕ → Bool
    family_matches x family =
        if same family (codes "v6") then is6 x && not (is4in6 x) else is4 x || is4in6 x

    module _ (parse_addr : List ℕ → Option Addr) where
      unfoldable pub lookup :
          Key → Instant → Answers Addr → Instant → Cache Addr → Result LookupError Addr × Cache Addr
      unfolding family_matches look after_look
      lookup k now answers later c = elim (parse_addr k.host) [
        | some x ↦ (if family_matches x k.family then ok x else err not_of_family, c)
        | none ↦ after_look k answers later (look k now c)
      ]
