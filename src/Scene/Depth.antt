-- ===== src/Scene/Depth.antt =====
-- The loop of `_depth_of`.
use fuddy_duddy.Prelude.{
  ℕ, zero, suc, ◌+◌, ◌≤◌, ◌<◌, ◌≡◌, refl, ap, false, Bool-cases, Option-cases, inl, inr, some, List,
  [], ◌∷◌, ◌==◌, length, arith, if◌then◌else◌,
}
use fuddy_duddy.Int.{ℤ, pos, int_eq, int_beq_iff}
use fuddy_duddy.Dict.{Dict, lookup}
use fuddy_duddy.Model.{Process, World}
use fuddy_duddy.Scene.Layout.{is_seen, walk, depth_of}

-- How many processes the walk has not been at.
unseen : List ℤ → Dict ℤ Process → ℕ
unseen seen [] = 0
unseen seen ((k, p) ∷ d) = let rest = unseen seen d in if is_seen k seen then rest else suc rest

unseen-le : (k : ℤ) (seen : List ℤ) (d : Dict ℤ Process) → unseen (k ∷ seen) d ≤ unseen seen d
unfolding unseen is_seen
unseen-le k seen [] = omega arith
unseen-le k seen ((j, p) ∷ d) = ground (arith, unseen-le k seen d)

-- A step to a process that is there takes it from the unseen ones.
unseen-lt :
    (k : ℤ) (p : Process) (seen : List ℤ) (d : Dict ℤ Process)
    → lookup k d ≡ some p
    → is_seen k seen ≡ false
    → unseen (k ∷ seen) d < unseen seen d
unfolding unseen is_seen lookup
unseen-lt k p seen [] h new = cc
unseen-lt k p seen ((j, q) ∷ d) h new =
    let same : j ≡ k → is_seen j seen ≡ is_seen k seen = λ e. ap (λ i. is_seen i seen) e in
    ground (arith, same, int_beq_iff j k, int_beq_iff k j, unseen-le k seen d, unseen-lt k p seen d)

unseen-length : (d : Dict ℤ Process) → unseen [] d ≤ length d
unfolding unseen is_seen
unseen-length [] = omega arith
unseen-length ((j, q) ∷ d) = ground (arith, unseen-length d)

-- With more fuel than unseen processes the walk ends, after a step per unseen process at most.
walk_ends :
    (fuel : ℕ) (w : World) (seen : List ℤ) (cur : ℤ) (depth : ℕ)
    → unseen seen w.processes < fuel
    → (n : ℕ) × (walk fuel w seen cur depth ≡ some n) × (n ≤ depth + unseen seen w.processes)
unfolding walk
walk_ends zero w seen cur depth h = absurd (omega arith)
walk_ends (suc fuel) w seen cur depth h = elim (Bool-cases (cur == pos 0)) [
  | inl root ↦ rw (root, walk) (depth, refl, omega arith)
  | inr linked ↦ elim (Option-cases (lookup cur w.processes)) [
    | inl gone ↦ rw (linked, gone, walk) (depth, refl, omega arith)
    | inr (p, here) ↦ elim (Bool-cases (is_seen cur seen)) [
      | inl again ↦ rw (linked, here, again, walk) (depth, refl, omega arith)
      | inr new ↦
          let fewer = unseen-lt cur p seen w.processes here new in
          let (n, ends, bound) = walk_ends fuel w (cur ∷ seen) p.ppid (suc depth) (omega arith) in
          rw (linked, here, new, walk) (n, ends, omega arith)
    ]
  ]
]

-- For a process of the world under the key `pid`, the walk of `_depth_of` along the parents ends,
-- also where the links are a cycle, and the depth is less than the number of processes.
pub depth_of_ends :
    (pid : ℤ) (p : Process) (w : World)
    → lookup pid w.processes ≡ some p
    → (n : ℕ) × (depth_of pid w ≡ some n) × (n < length w.processes)
unfolding depth_of is_seen
depth_of_ends pid p w here =
    let fewer = unseen-lt pid p [] w.processes here refl in
    let all = unseen-length w.processes in
    let (n, ends, bound) = walk_ends (length w.processes) w (pid ∷ []) p.ppid 0 (omega arith) in
    rw (here, depth_of) (n, ends, omega arith)
