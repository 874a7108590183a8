-- ===== src/Scene/Userland.antt =====
-- The generations of processes, and the rows that lie in userland.
use mathlib.Core.Path.{ap₂}
use fuddy_duddy.Prelude.{
  ℕ, zero, suc, ◌+◌, ◌*◌, ◌≤◌, ◌<◌, ◌≡◌, ◌↔◌, sym, ◌∙◌, true, false, ◌⊎◌, inl, inr, none, some,
  List, [], ◌∷◌, ◌==◌, length, arith,
}
use fuddy_duddy.Int.{ℤ, int_eq, pos, ◌+ℤ◌}
use fuddy_duddy.Dict.{Dict, lookup}
use fuddy_duddy.Model.{Process, World}
use fuddy_duddy.Render.{boundary_y}
use fuddy_duddy.Scene.Layout.{walk, depth_of, Box, box_pids, layout, row_y, tree_box_h}
use fuddy_duddy.Scene.Tree.{layout-IsOnRow}
use fuddy_duddy.Scene.Below.{IsRanked, AreAbove, AreAbove-le, walk_on, depth_of-some}

module _ (w : World) where
  -- A process of the generation 0 has no parent in the world, any other one is a generation behind
  -- its parent.
  pub data Generation : ℕ → ℤ → Type 0 where
    first :
        {k : ℤ} (p : Process)
        → lookup k w.processes ≡ some p
        → ((p.ppid == pos 0) ≡ true) ⊎ (lookup p.ppid w.processes ≡ none)
        → Generation 0 k
    later :
        {n : ℕ} {k : ℤ} (p : Process)
        → lookup k w.processes ≡ some p
        → (p.ppid == pos 0) ≡ false
        → Generation n p.ppid
        → Generation (suc n) k

  -- The walk ends at a parent that is not in the world.
  walk_out :
      (f : ℕ) (seen : List ℤ) (cur : ℤ) (d m : ℕ)
      → ((cur == pos 0) ≡ true) ⊎ (lookup cur w.processes ≡ none)
      → walk f w seen cur d ≡ some m
      → m ≡ d
  unfolding walk
  walk_out zero seen cur d m out e = cc
  walk_out (suc f) seen cur d m (inl root) e = ground arith
  walk_out (suc f) seen cur d m (inr gone) e = ground arith

  module _ (rank : ℤ → ℕ) (ranked : IsRanked w rank) where
    -- The walk from an ancestor counts the ancestor and its generation.
    walk_up :
        (f : ℕ) (seen : List ℤ) (cur : ℤ) (d n m : ℕ)
        → Generation n cur
        → (cur == pos 0) ≡ false
        → AreAbove w rank (rank cur) seen
        → walk f w seen cur d ≡ some m
        → m ≡ d + suc n
    unfolding walk
    walk_up zero seen cur d n m g linked above e = cc
    walk_up (suc f) seen cur d _ m (first p found out) linked above e =
        let ends = sym (walk_on w rank f seen cur d p linked found above) ∙ e in
        let last = walk_out f (cur ∷ seen) p.ppid (suc d) m out ends in omega arith
    walk_up (suc f) seen cur d _ m (later p found further g) linked above e =
        let down = ranked cur p found further in
        let goes = sym (walk_on w rank f seen cur d p linked found above) ∙ e in
        let all : AreAbove w rank (rank p.ppid) (cur ∷ seen) =
          (down, AreAbove-le w rank (rank p.ppid) (rank cur) seen (omega arith) above) in
        let last = walk_up f (cur ∷ seen) p.ppid (suc d) _ m g further all goes in omega arith

    -- The depth of a process is its generation.
    depth_of-Generation : (n m : ℕ) (k : ℤ) → Generation n k → depth_of k w ≡ some m → m ≡ n
    depth_of-Generation _ m k (first p found out) e =
        walk_out (length w.processes) (k ∷ []) p.ppid 0 m out
          (sym (depth_of-some w rank k p found) ∙ e)
    depth_of-Generation _ m k (later p found further g) e =
        let up =
          walk_up (length w.processes) (k ∷ []) p.ppid 0 _ m g further
            (ranked k p found further, tt) (sym (depth_of-some w rank k p found) ∙ e) in
        omega arith

-- In the layout of a world with more than one process whose parent links make no cycle (some
-- number goes down from each process to its parent, unless the parent is 0), for a process with a
-- box that has n ancestors in the world: the lower edge of the box has the y 68 + 30 n, and lies
-- above the boundary to kernel space, or on it, exactly if n is at most 2.
pub box_in_userland :
    (w : World) (rank : ℤ → ℕ) (rects : Dict ℤ Box) (n : ℕ) (pid : ℤ) (b : Box)
    → IsRanked w rank
    → layout w ≡ some rects
    → 1 < length (box_pids w)
    → Generation w n pid
    → lookup pid rects ≡ some b
    → (bottom : ℕ) × (b.y +ℤ b.h ≡ pos bottom)
      × (bottom ≡ 68 + 30 * n)
      × ((bottom ≤ boundary_y) ↔ (n ≤ 2))
unfolding row_y ◌+ℤ◌
box_in_userland w rank rects n pid b ranked made many g found =
    let (depth, placed, top, height) = layout-IsOnRow w rects pid b made many found in
    let same = depth_of-Generation w rank ranked n depth pid g placed in
    (row_y depth + tree_box_h, ap₂ (λ y h. y +ℤ h) top height, omega arith, ground arith)
