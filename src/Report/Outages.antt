-- ===== src/Report/Outages.antt =====
-- The loop of `Availability` puts the down intervals in groups that no gap splits.
use smokeng.Common.{
  ℕ, suc, ◌+◌, ◌/◌, ◌||◌, ◌≡◌, refl, Bool, true, false, not, ◌&&◌, Option, none, some, List, [],
  ◌∷◌, ◌++◌, arith, length, keep, Bool-cases, inl, inr, if◌then◌else◌, ◌==◌, ◌∙◌, sym, ap,
}
use mathlib.Core.List.{append_assoc, append-nil}
use mathlib.Core.Path.{subst}
use smokeng.Common.Int.{pos, ltb_ℤ, wrap64, sub_ℕ}
use smokeng.Common.Float.{FloatOps}
use smokeng.Report.Model.{
  Point, Episode, Tally, is_gap, extend, close, is_down, count, tally_point, tally,
}
use smokeng.Report.Groups.{
  After, Outage, members, all_members, grow, Stands, extend-grow, Joined-grow, close-Stands,
}

module _ {F : Type 0} (fl : FloatOps F) (threshold : F) (interval : ℕ) where
  count-down :
      (t : Tally) (p : Point)
      → is_down fl threshold p ≡ true
      → count fl threshold interval p t
        ≡ record t { down = suc t.down; cur = some (extend interval t.cur p) }
  unfolding count
  count-down t p e = ground (arith, e)

  count-up :
      (t : Tally) (p : Point)
      → is_down fl threshold p ≡ false
      → count fl threshold interval p t ≡ close (record t { up = suc t.up })
  unfolding count
  count-up t p e = ground (arith, e)

  -- A down interval that starts an outage, and one that joins the open one.
  start-Stands :
      (t : Tally) (seen : List After) (a : After)
      → Stands interval t seen none
      → a.breaks ≡ true
      → Stands interval
          (record t { down = suc t.down; cur = some (extend interval t.cur a.point) })
          (seen ++ a ∷ [])
          (some (record { first = a; more = [] }))
  unfolding extend
  start-Stands t seen a s apart = record {
    closed = s.closed;
    downtime_is = s.downtime_is;
    cur_is = ap (λ (c : Option Episode). some (extend interval c a.point)) s.cur_is;
    closed_unbroken = s.closed_unbroken;
    open_unbroken = (apart, tt);
    seen_is =
        ap (λ (l : List After). l ++ a ∷ []) (sym (append-nil (all_members s.closed)) ∙ s.seen_is);
  }

  grow-Stands :
      (t : Tally) (seen : List After) (g : Outage) (a : After)
      → Stands interval t seen (some g)
      → a.breaks ≡ false
      → Stands interval
          (record t { down = suc t.down; cur = some (extend interval t.cur a.point) })
          (seen ++ a ∷ [])
          (some (grow g a))
  grow-Stands t seen g a s near = record {
    closed = s.closed;
    downtime_is = s.downtime_is;
    cur_is =
        ap (λ (c : Option Episode). some (extend interval c a.point)) s.cur_is
        ∙ ap (λ (e : Episode). some e) (extend-grow interval g a);
    closed_unbroken = s.closed_unbroken;
    open_unbroken = (s.open_unbroken.0, Joined-grow g.more a s.open_unbroken.1 near);
    seen_is =
        sym (append_assoc (all_members s.closed) (members g) (a ∷ []))
        ∙ ap (λ (l : List After). l ++ a ∷ []) s.seen_is;
  }

  -- No outage is open exactly when the next down interval would break it.
  abbrev Agrees : Bool → Option Outage → Type 0
  Agrees broken none = broken ≡ true
  Agrees broken (some g) = broken ≡ false

  abbrev pub Standing : Bool → Tally → List After → Type 0
  Standing broken t seen = (o : Option Outage) × Stands interval t seen o × Agrees broken o

  down-Standing :
      (t : Tally) (seen : List After) (a : After) (o : Option Outage)
      → Stands interval t seen o
      → Agrees a.breaks o
      → Standing false
          (record t { down = suc t.down; cur = some (extend interval t.cur a.point) })
          (seen ++ a ∷ [])
  down-Standing t seen a none s apart = (some _, start-Stands t seen a s apart, refl)
  down-Standing t seen a (some g) s near = (some _, grow-Stands t seen g a s near, refl)

  up-Standing :
      (t : Tally) (seen : List After) (o : Option Outage)
      → Stands interval t seen o
      → Standing true (close (record t { up = suc t.up })) seen
  up-Standing t seen o s = (
    none,
    close-Stands interval (record t { up = suc t.up }) seen o
        (record {
          closed = s.closed;
          downtime_is = s.downtime_is;
          cur_is = s.cur_is;
          closed_unbroken = s.closed_unbroken;
          open_unbroken = s.open_unbroken;
          seen_is = s.seen_is;
        }),
    refl,
  )

  abbrev down_one : After → List After
  down_one a = if is_down fl threshold a.point then a ∷ [] else []

  count-Standing :
      (t : Tally) (seen : List After) (a : After) (o : Option Outage)
      → Stands interval t seen o
      → Agrees a.breaks o
      → Standing
          (not (is_down fl threshold a.point))
          (count fl threshold interval a.point t)
          (seen ++ down_one a)
  count-Standing t seen a o s near = elim (Bool-cases (is_down fl threshold a.point)) [
    | inl e ↦
        subst (λ (x : Tally). Standing (not (is_down fl threshold a.point)) x (seen ++ down_one a))
          (sym (count-down t a.point e)) (rw e (down-Standing t seen a o s near))
    | inr e ↦
        subst (λ (x : Tally). Standing (not (is_down fl threshold a.point)) x (seen ++ down_one a))
          (sym (count-up t a.point e)) (rw (e, append-nil seen) (up-Standing t seen o s))
  ]

  unsent_not_down : (p : Point) → (p.sent == 0) ≡ true → is_down fl threshold p ≡ false
  unfolding is_down
  unsent_not_down p e = ground (arith, e)

  -- More than one and a half intervals lie between the two times.
  abbrev pub far : (prev ts : ℕ) → Bool
  far prev ts = ltb_ℤ (wrap64 (pos (interval + interval / 2))) (sub_ℕ ts prev)

  -- A point that sent nothing is passed over.
  abbrev breaks_at : Bool → ℕ → Point → Bool
  breaks_at broken prev p = if p.sent == 0 then broken else broken || far prev p.ts

  abbrev pub broken_after : Bool → Point → Bool
  broken_after broken p = if p.sent == 0 then broken else not (is_down fl threshold p)

  -- The points with what stands before them; `broken` says it of the next down interval.
  unfoldable pub marks : Bool → ℕ → List Point → List After
  marks broken prev [] = []
  marks broken prev (p ∷ rest) =
      record { prev = prev; point = p; breaks = breaks_at broken prev p }
      ∷ marks (broken_after broken p) p.ts rest

  Agrees-or : (b : Bool) (o : Option Outage) → Agrees b o → Agrees (b || false) o
  Agrees-or true none h = h
  Agrees-or false none h = h
  Agrees-or true (some g) h = h
  Agrees-or false (some g) h = h

  or_true : (b : Bool) → (b || true) ≡ true
  or_true true = refl
  or_true false = refl

  tally_point-Standing :
      (broken : Bool) (prev : ℕ) (p : Point) (t : Tally) (seen : List After)
      → Standing broken t seen
      → Standing
          (broken_after broken p)
          (tally_point fl threshold interval prev p t)
          (seen ++ down_one (record { prev = prev; point = p; breaks = breaks_at broken prev p }))
  unfolding tally_point is_gap
  tally_point-Standing broken prev p t seen (o, s, agrees) = elim (Bool-cases (p.sent == 0)) [
    | inl e ↦ rw (e, unsent_not_down p e, append-nil seen) (o, s, agrees)
    | inr e ↦
        let a : After = record { prev = prev; point = p; breaks = broken || far prev p.ts } in
        elim (Bool-cases (far prev p.ts)) [
          | inl g ↦
              let apart : a.breaks ≡ true = ap (λ (b : Bool). broken || b) g ∙ or_true broken in
              let counted =
                count-Standing (close t) seen a none (close-Stands interval t seen o s) apart in
              rw (e, g) (rw g at counted)
          | inr g ↦
              let near : Agrees a.breaks o =
                subst (λ (b : Bool). Agrees (broken || b) o) (sym g) (Agrees-or broken o agrees) in
              let counted = count-Standing t seen a o s near in rw (e, g) (rw g at counted)
        ]
  ]

  abbrev pub down_points : List After → List After
  down_points = keep (λ (a : After). is_down fl threshold a.point)

  one_more :
      (seen l : List After) (a : After)
      → (seen ++ down_one a) ++ l ≡ seen ++ (if is_down fl threshold a.point then a ∷ l else l)
  one_more seen l a =
      append_assoc seen (down_one a) l
      ∙ elim (Bool-cases (is_down fl threshold a.point)) [ inl e ↦ rw e | inr e ↦ rw e ]

  pub tally-Standing :
      (broken : Bool) (prev : ℕ) (points : List Point) (t : Tally) (seen : List After)
      → Standing broken t seen
      → (b : Bool) × Standing b
          (tally fl threshold interval prev points t)
          (seen ++ down_points (marks broken prev points))
  unfolding tally marks keep
  tally-Standing broken prev [] t seen s = (broken, rw (append-nil seen) s)
  tally-Standing broken prev (p ∷ rest) t seen s =
      let a : After = record { prev = prev; point = p; breaks = breaks_at broken prev p } in
      let t' = tally_point fl threshold interval prev p t in
      let later = broken_after broken p in
      let (b, standing) =
        tally-Standing later p.ts rest t' (seen ++ down_one a)
          (tally_point-Standing broken prev p t seen s) in
      (
        b,
        subst (λ (l : List After). Standing b (tally fl threshold interval p.ts rest t') l)
            (one_more seen (down_points (marks later p.ts rest)) a) standing,
      )

  pub close-counts : (t : Tally) → ((close t).up ≡ t.up) × ((close t).down ≡ t.down)
  unfolding close
  close-counts t = ground arith

  abbrev pub up_point : Point → Bool
  up_point p = not (p.sent == 0) && not (is_down fl threshold p)

  tally_point-counts :
      (prev : ℕ) (p : Point) (t : Tally)
      → ((tally_point fl threshold interval prev p t).down
          ≡ t.down + (if is_down fl threshold p then 1 else 0))
        × ((tally_point fl threshold interval prev p t).up ≡ t.up + (if up_point p then 1 else 0))
  unfolding tally_point count
  tally_point-counts prev p t =
      let unsent = unsent_not_down p in
      let closed = close-counts t in
      let closed_up = close-counts (record t { up = suc t.up }) in
      let closed_both = close-counts (record (close t) { up = suc (close t).up }) in
      ground (arith, unsent, closed, closed_up, closed_both)

  pub tally-counts :
      (broken : Bool) (prev : ℕ) (points : List Point) (t : Tally)
      → ((tally fl threshold interval prev points t).down
          ≡ t.down + length (down_points (marks broken prev points)))
        × ((tally fl threshold interval prev points t).up ≡ t.up + length (keep up_point points))
  unfolding tally marks keep
  tally-counts broken prev [] t = (omega arith, omega arith)
  tally-counts broken prev (p ∷ rest) t =
      let ih =
        tally-counts (broken_after broken p) p.ts rest
          (tally_point fl threshold interval prev p t) in
      let one = tally_point-counts prev p t in ground (arith, ih, one)
