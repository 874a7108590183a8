-- ===== src/Scene/Below.antt =====
-- A parent and its child in the tree of processes.
use fuddy_duddy.Prelude.{
  ℕ, zero, suc, ◌≤◌, ◌<◌, ◌≡◌, refl, sym, ◌∙◌, ap, true, false, Bool-cases, Option-cases, ◌⊎◌, inl,
  inr, some, List, [], ◌∷◌, ◌==◌, All, length, arith,
}
use fuddy_duddy.Int.{ℤ, pos, int_eq, int_beq_iff, ◌+ℤ◌}
use fuddy_duddy.Dict.{Dict, lookup}
use fuddy_duddy.Model.{Process, World}
use fuddy_duddy.Scene.Layout.{is_seen, walk, depth_of, Box, box_pids, layout, row_y, row_step}
use fuddy_duddy.Scene.Tree.{layout-IsOnRow}

module _ (w : World) (rank : ℤ → ℕ) where
  -- The parents of the world make no cycle: a rank goes down along them.
  abbrev pub IsRanked : Type 0
  IsRanked =
      (k : ℤ) (p : Process)
      → lookup k w.processes ≡ some p
      → (p.ppid == pos 0) ≡ false
      → rank p.ppid < rank k

  abbrev pub AreAbove : ℕ → List ℤ → Type 0
  AreAbove n = All (λ x. n < rank x)

  is_seen-AreAbove : (k : ℤ) (seen : List ℤ) → AreAbove (rank k) seen → is_seen k seen ≡ false
  unfolding is_seen
  is_seen-AreAbove k [] _ = refl
  is_seen-AreAbove k (x ∷ seen) (h, hs) =
      let same : x ≡ k → rank x ≡ rank k = ap rank in
      ground (arith, same, int_beq_iff x k, is_seen-AreAbove k seen hs)

  pub AreAbove-le : (m n : ℕ) (seen : List ℤ) → m ≤ n → AreAbove n seen → AreAbove m seen
  AreAbove-le m n [] le _ = tt
  AreAbove-le m n (x ∷ seen) le (h, hs) = (omega arith, AreAbove-le m n seen le hs)

  -- The walk stops at once, or has been above only.
  abbrev IsFresh : ℤ → List ℤ → Type 0
  IsFresh cur seen = ((cur == pos 0) ≡ true) ⊎ AreAbove (rank cur) seen

  IsFresh-next :
      (ranked : IsRanked) (cur : ℤ) (p : Process) (seen : List ℤ)
      → lookup cur w.processes ≡ some p
      → AreAbove (rank cur) seen
      → IsFresh p.ppid (cur ∷ seen)
  IsFresh-next ranked cur p seen found above = elim (Bool-cases (p.ppid == pos 0)) [
    | inl root ↦ inl root
    | inr linked ↦
        let down = ranked cur p found linked in
        inr (down, AreAbove-le (rank p.ppid) (rank cur) seen (omega arith) above)
  ]

  pub walk_on :
      (f : ℕ) (seen : List ℤ) (cur : ℤ) (d : ℕ) (p : Process)
      → (cur == pos 0) ≡ false
      → lookup cur w.processes ≡ some p
      → AreAbove (rank cur) seen
      → walk (suc f) w seen cur d ≡ walk f w (cur ∷ seen) p.ppid (suc d)
  unfolding walk
  walk_on f seen cur d p linked found above =
      rw (linked, found, is_seen-AreAbove cur seen above, walk) refl

  above_of :
      (cur : ℤ) (seen : List ℤ)
      → (cur == pos 0) ≡ false
      → IsFresh cur seen
      → AreAbove (rank cur) seen
  above_of cur seen linked (inl root) = absurd (ground arith)
  above_of cur seen linked (inr above) = above

  -- Two walks from one process, both of which end, differ by where they begin to count.
  walks_agree :
      (ranked : IsRanked) (f g : ℕ) (seen seen' : List ℤ) (cur : ℤ) (d m n : ℕ)
      → IsFresh cur seen
      → IsFresh cur seen'
      → walk f w seen cur d ≡ some m
      → walk g w seen' cur (suc d) ≡ some n
      → n ≡ suc m
  unfolding walk
  walks_agree ranked zero g seen seen' cur d m n h h' e e' = cc
  walks_agree ranked (suc f) zero seen seen' cur d m n h h' e e' = cc
  walks_agree ranked (suc f) (suc g) seen seen' cur d m n h h' e e' =
      elim (Bool-cases (cur == pos 0)) [
        | inl root ↦ ground arith
        | inr linked ↦ elim (Option-cases (lookup cur w.processes)) [
          | inl gone ↦ ground arith
          | inr (p, found) ↦
              let above = above_of cur seen linked h in
              let above' = above_of cur seen' linked h' in
              walks_agree ranked f g (cur ∷ seen) (cur ∷ seen') p.ppid (suc d) m n
                (IsFresh-next ranked cur p seen found above)
                (IsFresh-next ranked cur p seen' found above')
                (sym (walk_on f seen cur d p linked found above) ∙ e)
                (sym (walk_on g seen' cur (suc d) p linked found above') ∙ e')
        ]
      ]

  pub depth_of-some :
      (k : ℤ) (p : Process)
      → lookup k w.processes ≡ some p
      → depth_of k w ≡ walk (length w.processes) w (k ∷ []) p.ppid 0
  unfolding depth_of
  depth_of-some k p found = rw (found, depth_of) refl

  module _ (ranked : IsRanked) (child : ℤ) (c p : Process)
      (found : lookup child w.processes ≡ some c) (linked : (c.ppid == pos 0) ≡ false)
      (parent : lookup c.ppid w.processes ≡ some p) where
    child_walk :
        (f m n : ℕ)
        → walk f w (c.ppid ∷ []) p.ppid 0 ≡ some m
        → walk f w (child ∷ []) c.ppid 0 ≡ some n
        → n ≡ suc m
    unfolding walk
    child_walk zero m n e e' = cc
    child_walk (suc f) m n e e' =
        let above : AreAbove (rank c.ppid) (child ∷ []) = (ranked child c found linked, tt) in
        walks_agree ranked (suc f) f (c.ppid ∷ []) (c.ppid ∷ child ∷ []) p.ppid 0 m n
          (IsFresh-next ranked c.ppid p [] parent tt)
          (IsFresh-next ranked c.ppid p (child ∷ []) parent above) e
          (sym (walk_on f (child ∷ []) c.ppid 0 p linked parent above) ∙ e')

    -- The child is one deeper than the parent.
    child_depth : (m n : ℕ) → depth_of c.ppid w ≡ some m → depth_of child w ≡ some n → n ≡ suc m
    child_depth m n e e' =
        child_walk (length w.processes) m n (sym (depth_of-some c.ppid p parent) ∙ e)
          (sym (depth_of-some child c found) ∙ e')

-- In the layout of a world with more than one process whose parent links make no cycle (some
-- number goes down from each process to its parent, unless the parent is 0): the box of a process
-- whose parent is in the world and is not 0 lies one row, 30 pixels, below the box of the parent
-- (R12).
pub child_below_parent :
    (w : World) (rank : ℤ → ℕ) (rects : Dict ℤ Box) (child : ℤ) (c p : Process) (b a : Box)
    → IsRanked w rank
    → layout w ≡ some rects
    → 1 < length (box_pids w)
    → lookup child w.processes ≡ some c
    → (c.ppid == pos 0) ≡ false
    → lookup c.ppid w.processes ≡ some p
    → lookup child rects ≡ some b
    → lookup c.ppid rects ≡ some a
    → b.y ≡ a.y +ℤ pos row_step
unfolding row_y ◌+ℤ◌
child_below_parent w rank rects child c p b a ranked made many found linked parent hb ha =
    let (n, deep, yb, _) = layout-IsOnRow w rects child b made many hb in
    let (m, up, ya, _) = layout-IsOnRow w rects c.ppid a made many ha in
    let next = child_depth w rank ranked child c p found linked parent m n up deep in
    rw (yb, ya) (ap pos (omega arith))
