-- ===== src/Common/Text.antt =====
-- What the program uses of Go's `strings`, over the code points of a text.
use Prim.Native.Nat.{ℕ, ◌-◌}
use native.Mathlib.Omega.{arith}
use Prim.Native.Char.{code}
use Prim.Native.String.{String}
use mathlib.Core.Bool.{Bool, true, false, ◌||◌}
use mathlib.Core.List.{List, [], ◌∷◌, ◌++◌, map}
use mathlib.Core.Path.{◌≡◌, refl}
use smokeng.Common.Tests.{◌==◌, if◌then◌else◌, between}

-- The code points of a text.
abbrev pub codes : String → List ℕ
codes String.[] = []
codes (String.◌∷◌ c s) = code c ∷ codes s

-- unicode.IsSpace
unfoldable pub is_space : ℕ → Bool
is_space c =
    between 9 13 c
    || (c == 32)
    || (c == 0x85)
    || (c == 0xA0)
    || (c == 0x1680)
    || between 0x2000 0x200A c
    || (c == 0x2028)
    || (c == 0x2029)
    || (c == 0x202F)
    || (c == 0x205F)
    || (c == 0x3000)

-- strings.TrimSpace: the loop drops leading spaces; from the right a space stays only before text.
abbrev trim_left : List ℕ → List ℕ
trim_left [] = []
trim_left (c ∷ s) = let rest = trim_left s in if is_space c then rest else c ∷ s

abbrev trim_cons : ℕ → List ℕ → List ℕ
trim_cons c [] = if is_space c then [] else c ∷ []
trim_cons c (d ∷ s) = c ∷ d ∷ s

abbrev trim_right : List ℕ → List ℕ
trim_right [] = []
trim_right (c ∷ s) = trim_cons c (trim_right s)

unfoldable pub trim_space : List ℕ → List ℕ
unfolding is_space
trim_space s = trim_right (trim_left s)

-- Equality of texts by their code points.
unfoldable pub same : List ℕ → List ℕ → Bool
same [] [] = true
same (c ∷ s) (d ∷ t) = if c == d then same s t else false
same _ _ = false

abbrev is_nil : List ℕ → Bool
is_nil [] = true
is_nil (_ ∷ _) = false

-- strings.Fields: `word` holds the field being read, reversed at its end by `flush`.
abbrev flush : List ℕ → List (List ℕ) → List (List ℕ)
flush [] rest = rest
flush (c ∷ w) rest = (c ∷ w) ∷ rest

unfoldable pub fields_from : List ℕ → List ℕ → List (List ℕ)
fields_from word [] = flush word []
fields_from word (c ∷ s) =
    let next = flush word (fields_from [] s) in
    let more = fields_from (word ++ c ∷ []) s in if is_space c then next else more

unfoldable pub fields : List ℕ → List (List ℕ)
unfolding fields_from is_space
fields s = fields_from [] s

-- strings.ToUpper on the letters whose upper case is in ASCII, which are those of ASCII, the dotless i
-- and the long s; a text with other letters is left as it is, and equals none of the ASCII words that
-- the program compares the result with.
abbrev upper : ℕ → ℕ
upper c =
    if between 97 122 c then c - 32 else if c == 0x131 then 73 else if c == 0x17F then 83 else c

unfoldable pub to_upper : List ℕ → List ℕ
to_upper = map upper

pub same_refl : (s : List ℕ) → same s s ≡ true
unfolding same
same_refl [] = refl
same_refl (c ∷ s) = ground (arith, same_refl s)

-- Texts that pass the test are equal.
pub same-eq : (s t : List ℕ) → same s t ≡ true → s ≡ t
unfolding same
same-eq [] [] h = refl
same-eq [] (d ∷ t) h = cc
same-eq (c ∷ s) [] h = cc
same-eq (c ∷ s) (d ∷ t) h = ground (arith, same-eq s t)

fields_run : fields (codes " a  bc ") ≡ codes "a" ∷ codes "bc" ∷ []
unfolding fields
fields_run = refl

trim_run : trim_space (codes "  a b ") ≡ codes "a b"
unfolding trim_space
trim_run = refl
