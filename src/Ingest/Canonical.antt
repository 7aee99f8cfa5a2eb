-- ===== src/Ingest/Canonical.antt =====
-- `CanonicalString` of internal/ingest/sign.go: the bytes that are signed.
use smokeng.Common.{ℕ, zero, suc, ◌+◌, ◌/◌, ◌%◌, List, [], ◌∷◌, ◌++◌, if◌then◌else◌, ltb}
use smokeng.Common.Int.{ℤ, pos, negsuc}
use smokeng.Common.Text.{codes}

-- A number below `10 ^ fuel` in decimal.
unfoldable pub decimal_from : ℕ → ℕ → List ℕ
decimal_from zero n = []
decimal_from (suc fuel) n =
    let high = decimal_from fuel (n / 10) in
    if ltb n 10 then (48 + n) ∷ [] else high ++ (48 + n % 10) ∷ []

-- strconv.FormatInt(n, 10): twenty digits hold every `int64`.
unfoldable pub format_int : ℤ → List ℕ
unfolding decimal_from
format_int (pos n) = decimal_from 20 n
format_int (negsuc n) = 45 ∷ decimal_from 20 (n + 1)

abbrev pub domain : List ℕ
domain = codes "smokeng-ingest-v1"

abbrev pub newline : ℕ
newline = 10

-- strings.Join(parts, "\n")
unfoldable pub join_lines : List (List ℕ) → List ℕ
join_lines [] = []
join_lines (p ∷ []) = p
join_lines (p ∷ q ∷ parts) = p ++ newline ∷ join_lines (q ∷ parts)

-- A parsed request. Its body is an opaque value, of which the hash is taken.
pub record Signed (Body Signature : Type 0) : Type 0 where
  pub method : List ℕ
  pub path : List ℕ
  pub agent_id : ℤ
  pub timestamp : ℤ
  pub nonce : List ℕ
  pub signature : Signature
  pub body : Body

-- `hash` is the hexadecimal SHA-256 of a body.
unfoldable pub canonical_string :
    {Body Signature : Type 0} → (Body → List ℕ) → Signed Body Signature → List ℕ
unfolding join_lines format_int
canonical_string hash s = join_lines (
    domain
    ∷ s.method
    ∷ s.path
    ∷ format_int s.agent_id
    ∷ format_int s.timestamp
    ∷ s.nonce
    ∷ hash s.body
    ∷ [])
