-- ===== src/Access/Role.antt =====
-- The ladder of roles, internal/auth/session.go. A role is a text: the four that have a name, and
-- `other` for the rest, the empty one included.
use smokeng.Common.{ℕ, ◌≡◌, Bool, ◌||◌, List, if◌then◌else◌, leb, arith}

pub data Role : Type 0 where
  no_role viewer editor admin : Role
  other : List ℕ → Role

unfoldable pub rank : Role → ℕ
rank admin = 3
rank editor = 2
rank viewer = 1
rank no_role = 0
rank (other _) = 0

-- AtLeast
unfoldable pub at_least : Role → Role → Bool
unfolding rank
at_least r want = leb (rank want) (rank r)

-- Max
unfoldable pub max_role : Role → Role → Role
unfolding rank
max_role a b = if leb (rank b) (rank a) then a else b

-- The more permissive of two roles permits what one of them does.
pub at_least-max_role :
    (a b want : Role) → at_least (max_role a b) want ≡ (at_least a want || at_least b want)
unfolding at_least max_role
at_least-max_role a b want = ground arith
