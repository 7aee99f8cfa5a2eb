-- ===== src/Scenarios/Calls.antt =====
-- The calls of an Arrow reader on a small limit, and the rules that reach a target.
use smokeng.Common.{◌≤◌, ◌≡◌, ◌↔◌, List, [], ◌∷◌, All}
use smokeng.Common.Int.{pos}
use smokeng.Common.Result.{ok}
use smokeng.Ingest.Limit.{
  Call, LimitAllocator, allocate, reallocate, free, IsHonest, total, serve_all, new_limit_allocator,
  serve_all-exact,
}

abbrev calls : List Call
calls = allocate (pos 40) ∷ reallocate (pos 60) 40 ∷ free ∷ allocate (pos 30) ∷ []

serve_all-exact_example :
    ((a' : LimitAllocator) × (serve_all (new_limit_allocator 100) calls ≡ ok a'))
    ↔ (All IsHonest calls × (total calls ≤ 100))
serve_all-exact_example = serve_all-exact 100 calls
