-- ===== src/Report/Groups.antt =====
-- Outages as groups of down intervals, and the episodes that stand for them.
use smokeng.Common.{
  ℕ, suc, ◌+◌, ◌≡◌, refl, Bool, true, false, Option, none, some, List, [], ◌∷◌, ◌++◌, map, arith,
  length, All, ◌∙◌, sym, ap,
}
use mathlib.Core.List.{append_assoc, append-nil}
use mathlib.Core.Path.{subst}
use smokeng.Common.{length-append}
use smokeng.Common.Int.{pos, wrap64, mul64}
use smokeng.Report.Model.{Point, Episode, Tally, extend, close}

-- A point with the time of the one before it, and whether an outage cannot reach over to it: there
-- was no down interval before it, or one that is up since then, or a gap.
pub record After : Type 0 where
  pub prev : ℕ
  pub point : Point
  pub breaks : Bool

-- An outage: its first down interval, and those after it.
pub record Outage : Type 0 where
  pub first : After
  pub more : List After

abbrev pub members : Outage → List After
members g = g.first ∷ g.more

unfoldable pub all_members : List Outage → List After
all_members [] = []
all_members (g ∷ gs) = members g ++ all_members gs

abbrev last_ts : After → List After → ℕ
last_ts a [] = a.point.ts
last_ts a (b ∷ more) = last_ts b more

-- What an episode should say of an outage.
abbrev pub episode_of : (interval : ℕ) → Outage → Episode
episode_of interval g = record {
  start_ts = g.first.point.ts;
  end_ts = wrap64 (pos (last_ts g.first g.more + interval));
  duration_s = mul64 (pos (length (members g))) (pos interval);
  intervals = length (members g);
}

abbrev Joined : List After → Type 0
Joined = All (λ (a : After). a.breaks ≡ false)

-- No interval of the outage breaks it, but its first one, which stands apart from those before it.
abbrev pub Unbroken : Outage → Type 0
Unbroken g = (g.first.breaks ≡ true) × Joined g.more

last_ts-append : (a b : After) (more : List After) → last_ts a (more ++ b ∷ []) ≡ b.point.ts
last_ts-append a b [] = refl
last_ts-append a b (c ∷ more) = last_ts-append c b more

all_members-append :
    (gs hs : List Outage) → all_members (gs ++ hs) ≡ all_members gs ++ all_members hs
unfolding all_members
all_members-append [] hs = refl
all_members-append (g ∷ gs) hs =
    ap (λ (m : List After). members g ++ m) (all_members-append gs hs)
    ∙ sym (append_assoc (members g) (all_members gs) (all_members hs))

abbrev pub grow : Outage → After → Outage
grow g a = record { first = g.first; more = g.more ++ a ∷ [] }

pub extend-grow :
    (interval : ℕ) (g : Outage) (a : After)
    → extend interval (some (episode_of interval g)) a.point ≡ episode_of interval (grow g a)
unfolding extend
extend-grow interval g a =
    let longer : length (g.more ++ a ∷ []) ≡ suc (length g.more) =
      omega (arith, length-append g.more (a ∷ [])) in
    rw (last_ts-append g.first a g.more, longer)

pub Joined-grow :
    (more : List After) (a : After) → Joined more → a.breaks ≡ false → Joined (more ++ a ∷ [])
Joined-grow [] a h e = (e, tt)
Joined-grow (b ∷ more) a h e = (h.0, Joined-grow more a h.1 e)

All-append :
    {A : Type 0} (P : A → Type 0) (xs : List A) (y : A) → All P xs → P y → All P (xs ++ y ∷ [])
All-append P [] y h p = (p, tt)
All-append P (x ∷ xs) y h p = (h.0, All-append P xs y h.1 p)

map-snoc :
    {A B : Type 0} (f : A → B) (xs : List A) (y : A) → map f xs ++ f y ∷ [] ≡ map f (xs ++ y ∷ [])
map-snoc f [] y = refl
map-snoc f (x ∷ xs) y = ap (λ l. f x ∷ l) (map-snoc f xs y)

abbrev open_episode : (interval : ℕ) → Option Outage → Option Episode
open_episode interval none = none
open_episode interval (some g) = some (episode_of interval g)

abbrev open_members : Option Outage → List After
open_members none = []
open_members (some g) = members g

abbrev OpenUnbroken : Option Outage → Type 0
OpenUnbroken none = Unit
OpenUnbroken (some g) = Unbroken g

-- The tally stands for the outages whose intervals are `seen`: those closed, and the one open.
pub record Stands (interval : ℕ) (t : Tally) (seen : List After) (open_outage : Option Outage)
    : Type 0 where
  pub closed : List Outage
  pub downtime_is : t.downtime ≡ map (episode_of interval) closed
  pub cur_is : t.cur ≡ open_episode interval open_outage
  pub closed_unbroken : All Unbroken closed
  pub open_unbroken : OpenUnbroken open_outage
  pub seen_is : all_members closed ++ open_members open_outage ≡ seen

close-none : (t : Tally) → t.cur ≡ none → close t ≡ t
unfolding close
close-none t e = ground (arith, e)

close-some :
    (t : Tally) (e : Episode)
    → t.cur ≡ some e
    → close t ≡ record t { downtime = t.downtime ++ e ∷ []; cur = none }
unfolding close
close-some t e is = ground (arith, is)

members-snoc :
    (closed : List Outage) (g : Outage)
    → all_members (closed ++ g ∷ []) ++ [] ≡ all_members closed ++ members g
unfolding all_members
members-snoc closed g =
    append-nil (all_members (closed ++ g ∷ []))
    ∙ all_members-append closed (g ∷ [])
    ∙ ap (λ (m : List After). all_members closed ++ m) (append-nil (members g))

pub close-Stands :
    (interval : ℕ) (t : Tally) (seen : List After) (o : Option Outage)
    → Stands interval t seen o
    → Stands interval (close t) seen none
close-Stands interval t seen none s =
    subst (λ (x : Tally). Stands interval x seen none) (sym (close-none t s.cur_is)) s
close-Stands interval t seen (some g) s =
    subst (λ (x : Tally). Stands interval x seen none)
      (sym (close-some t (episode_of interval g) s.cur_is))
      (record {
        closed = s.closed ++ g ∷ [];
        downtime_is =
            ap (λ (d : List Episode). d ++ episode_of interval g ∷ []) s.downtime_is
            ∙ map-snoc (episode_of interval) s.closed g;
        cur_is = refl;
        closed_unbroken = All-append Unbroken s.closed g s.closed_unbroken s.open_unbroken;
        open_unbroken = tt;
        seen_is = members-snoc s.closed g ∙ s.seen_is;
      })
