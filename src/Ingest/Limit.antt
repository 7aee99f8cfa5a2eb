-- ===== src/Ingest/Limit.antt =====
-- internal/ingest/limit.go: the allocator that hands out no more than a limit. The allocator beneath,
-- which returns the bytes, is a library's; what is modelled is the account.
use smokeng.Common.{
  ℕ, ◌+◌, ◌-◌, ◌≤◌, ◌≡◌, refl, ◌||◌, List, [], ◌∷◌, arith, if◌then◌else◌, All, ◌↔◌,
}
use smokeng.Common.Int.{ℤ, pos, negsuc, pos_part, ltb_ℤ, sub_ℕ, ◌≤ℤ◌}
use smokeng.Common.Result.{Result, ok, err, ◌>>=◌, >>=-eq-ok}

pub record LimitAllocator : Type 0 where
  pub used : ℕ
  pub limit : ℕ

-- The panic of `take`, which `DecodeBatch` turns into an error.
pub record ErrAllocationLimit : Type 0 where
  pub want : ℤ
  pub used : ℕ
  pub limit : ℕ

abbrev pub max_decode_bytes : ℕ
max_decode_bytes = 67108864

-- newLimitAllocator
unfoldable pub new_limit_allocator : ℕ → LimitAllocator
new_limit_allocator limit = record { used = 0; limit = limit }

-- take
unfoldable pub take : LimitAllocator → ℤ → Result ErrAllocationLimit LimitAllocator
take a delta =
    if ltb_ℤ delta (pos 0) || ltb_ℤ (sub_ℕ a.limit a.used) delta
    then err (record { want = delta; used = a.used; limit = a.limit })
    else ok (record a { used = a.used + pos_part delta })

-- The calls of the reader: `Allocate(size)`, `Reallocate(size, b)` with the length of `b`, `Free(b)`.
pub data Call : Type 0 where
  allocate : (size : ℤ) → Call
  reallocate : (size : ℤ) → (len : ℕ) → Call
  free : Call

-- `if d := size - len(b); d > 0 { a.take(d) }`
unfoldable pub grow : LimitAllocator → ℤ → ℕ → Result ErrAllocationLimit LimitAllocator
unfolding take
grow a size len = if ltb_ℤ (pos len) size then take a (pos (pos_part size - len)) else ok a

-- Allocate, Reallocate, Free
unfoldable pub serve : LimitAllocator → Call → Result ErrAllocationLimit LimitAllocator
unfolding grow
serve a (allocate size) = take a size
serve a (reallocate size len) =
    if ltb_ℤ size (pos 0) then (do a' ← take a size; grow a' size len) else grow a size len
serve a free = ok a

unfoldable pub serve_all : LimitAllocator → List Call → Result ErrAllocationLimit LimitAllocator
unfolding serve
serve_all a [] = ok a
serve_all a (c ∷ calls) = do a' ← serve a c; serve_all a' calls

-- The bytes that a call asks for beyond what it holds.
abbrev pub asked : Call → ℕ
asked (allocate size) = pos_part size
asked (reallocate size len) = pos_part size - len
asked free = 0

abbrev pub total : List Call → ℕ
total [] = 0
total (c ∷ calls) = asked c + total calls

-- The size of the call is not negative.
abbrev pub IsHonest : Call → Type 0
IsHonest (allocate size) = pos 0 ≤ℤ size
IsHonest (reallocate size len) = pos 0 ≤ℤ size
IsHonest free = Unit

-- What it means for an account to have taken `n` bytes more.
abbrev pub Charged : LimitAllocator → ℕ → LimitAllocator → Type 0
Charged a n a' = (a'.used ≡ a.used + n) × (a'.limit ≡ a.limit) × (a'.used ≤ a'.limit)

serve-Charged :
    (a : LimitAllocator) (c : Call) {a' : LimitAllocator}
    → a.used ≤ a.limit
    → serve a c ≡ ok a'
    → IsHonest c × Charged a (asked c) a'
unfolding serve
serve-Charged a (allocate (pos n)) i h = ground arith
serve-Charged a (allocate (negsuc n)) i h = absurd (ground arith)
serve-Charged a (reallocate (pos n) len) i h = ground arith
serve-Charged a (reallocate (negsuc n) len) i h = absurd (ground arith)
serve-Charged a free i h = ground arith

serve_fits :
    (a : LimitAllocator) (c : Call)
    → IsHonest c
    → a.used + asked c ≤ a.limit
    → serve a c ≡ ok (record a { used = a.used + asked c })
unfolding serve
serve_fits a (allocate (pos n)) i h = ground arith
serve_fits a (allocate (negsuc n)) i h = absurd (omega arith)
serve_fits a (reallocate (pos n) len) i h = ground arith
serve_fits a (reallocate (negsuc n) len) i h = absurd (omega arith)
serve_fits a free i h = ground arith

serve_all-Charged :
    (a : LimitAllocator) (calls : List Call) {a' : LimitAllocator}
    → a.used ≤ a.limit
    → serve_all a calls ≡ ok a'
    → All IsHonest calls × Charged a (total calls) a'
unfolding serve_all
serve_all-Charged a [] i h = (tt, ground arith)
serve_all-Charged a (c ∷ calls) i h =
    let (b, first, more) = >>=-eq-ok (serve a c) _ h in
    let (honest, charged) = serve-Charged a c i first in
    let (all_honest, rest) = serve_all-Charged b calls charged.2 more in
    ((honest, all_honest), ground (arith, charged, rest))

serve_all_fits :
    (a : LimitAllocator) (calls : List Call)
    → All IsHonest calls
    → a.used + total calls ≤ a.limit
    → (a' : LimitAllocator) × (serve_all a calls ≡ ok a')
unfolding serve_all
serve_all_fits a [] i h = (a, refl)
serve_all_fits a (c ∷ calls) (i, is) h =
    let b : LimitAllocator = record a { used = a.used + asked c } in
    let one = serve_fits a c i (omega arith) in
    let (a', rest) = serve_all_fits b calls is (omega arith) in (a', rw one rest)

-- A fresh allocator serves a sequence of calls exactly when no size is negative and the bytes asked for
-- in all, growth alone being counted for a reallocation and nothing given back, stay within the limit.
pub serve_all-exact :
    (limit : ℕ) (calls : List Call)
    → ((a' : LimitAllocator) × (serve_all (new_limit_allocator limit) calls ≡ ok a'))
      ↔ (All IsHonest calls × (total calls ≤ limit))
unfolding new_limit_allocator
serve_all-exact limit calls = (
  λ (a', h).
      let (honest, charged) =
        serve_all-Charged (record { used = 0; limit = limit }) calls (omega arith) h in
      (honest, omega (arith, charged.0, charged.1, charged.2)),
  λ (honest, h). serve_all_fits (record { used = 0; limit = limit }) calls honest (omega arith),
)
