-- ===== src/Scenarios/Lookups.antt =====
-- The cache of addresses at a host whose record has run out.
use smokeng.Common.{
  ℕ, ◌*◌, ◌≡◌, refl, ap, if◌then◌else◌, not, ltb, ◌⊎◌, inl, Bool, true, false, Option, none, some,
  List, [], ◌∷◌,
}
use mathlib.Core.Path.{subst}
use smokeng.Common.Int.{pos, ◌+ℤ◌, ◌-ℤ◌, ◌*ℤ◌, mul64, wrap64}
use smokeng.Common.Text.{codes, same}
use smokeng.Common.Result.{ok}
use smokeng.Probe.Clock.{Instant, add, after}
use smokeng.Probe.DnsCache.{
  Key, a, aaaa, Answers, Entry, Cache, look, store_first, put, resolve, refresh, lookup,
  family_matches,
}
use smokeng.Probe.Offers.{Query, Known}
use smokeng.Probe.Cached.{Reached, fresh, looked, stored, IsRenewed}
use smokeng.Probe.Lookups.{refresh-IsRenewed, lookup-Known}

abbrev host : Key
host = record { host = codes "quad9"; family = codes "v4" }

abbrev at : ℕ → Instant
at s = record { wall = pos (s * 1000000000); mono = none }

-- An address is a number, below 2 ^ 32 for version 4.
abbrev is_4 : ℕ → Bool
is_4 x = ltb x 4294967296

-- The first server does not answer, and the second has an address of each family.
abbrev answers : Answers ℕ
answers = none ∷ some (aaaa 4294967297 60 ∷ a 9 5 ∷ []) ∷ []

abbrev first : Cache ℕ
first = record {
  entries = put host (record { addr = 9; expires = at 1030; refreshing = false }) (λ k. none);
  running = [];
}

abbrev empty : Cache ℕ
empty = record { entries = λ k. none; running = [] }

abbrev asked : Query ℕ
asked = record { key = host; answers = answers }

-- The records may be kept for 5 s, which is stretched to 30 s.
first_made : store_first host answers (at 1000) empty ≡ ok (9, first)
unfolding store_first resolve same add ◌+ℤ◌ mul64 wrap64 ◌*ℤ◌
first_made = refl

first-Reached : Reached (asked ∷ []) first
first-Reached = stored [] empty first host 9 answers (at 1000) fresh first_made

-- A lookup after that still gets the address, and starts a refresh.
abbrev expired : Cache ℕ
expired = record {
  entries = put host (record { addr = 9; expires = at 1030; refreshing = true }) first.entries;
  running = host ∷ [];
}

look-expired : look host (at 1100) first ≡ (some 9, expired)
unfolding look same after ◌-ℤ◌
look-expired = refl

expired-Reached : Reached (asked ∷ []) expired
expired-Reached =
    subst (Reached (asked ∷ [])) (ap (λ (r : Option ℕ × Cache ℕ). r.1) look-expired)
      (looked (asked ∷ []) first host (at 1100) first-Reached)

-- No server answers the refresh.
refresh-IsRenewed_example :
    (c : Cache ℕ) × (refresh host (none ∷ none ∷ []) (at 1105) expired ≡ some c)
    × (e : Entry ℕ) × (expired.entries host ≡ some e)
    × (f : Entry ℕ) × (c.entries host ≡ some f)
    × IsRenewed host e (none ∷ none ∷ []) (at 1105) f
refresh-IsRenewed_example =
    refresh-IsRenewed (asked ∷ []) expired host (none ∷ none ∷ []) (at 1105) expired-Reached
      (inl refl)

abbrev parsed : List ℕ → Option ℕ
parsed h = if same h (codes "9.9.9.9") then some 9 else none

abbrev is_6 : ℕ → Bool
is_6 x = not (is_4 x)

abbrev is_mapped : ℕ → Bool
is_mapped x = false

found : (lookup is_4 is_6 is_mapped parsed host (at 1106) [] (at 1106) expired).0 ≡ ok 9
unfolding lookup look same
found = refl

lookup-Known_example :
    ((parsed host.host ≡ some 9) × (family_matches is_4 is_6 is_mapped 9 host.family ≡ true))
    ⊎ Known host 9 (record { key = host; answers = [] } ∷ asked ∷ [])
lookup-Known_example =
    lookup-Known is_4 is_6 is_mapped parsed (asked ∷ []) expired host (at 1106) [] (at 1106) 9
      expired-Reached found
