-- ===== src/Scene/Cover.antt =====
-- The processes and their boxes: who has a box, and in which row of the tree.
use mathlib.Core.Option.{some-injective}
use mathlib.Core.Path.{subst}
use fuddy_duddy.Prelude.{
  ℕ, suc, ◌≡◌, refl, sym, ◌∙◌, ap, Bool, true, false, ◌||◌, Bool-cases, Option-cases, none, some,
  List, [], ◌∷◌, ◌++◌, ◌==◌, nat_eq, inl, inr, map, length, leb, All, All-append, arith, if_cases,
}
use fuddy_duddy.Int.{ℤ, int_eq, int_beq_iff, insert_int, sort_ints}
use fuddy_duddy.Dict.{Dict, lookup, contains, insert, keys}
use fuddy_duddy.Dict.Laws.{contains-insert, lookup_of_contains}
use fuddy_duddy.Model.{World}
use fuddy_duddy.Scene.Layout.{
  is_seen, depth_of, Box, lone_box, box_pids, Rows, add_to_row, rows_of, place_row, place_rows,
  layout,
}
use fuddy_duddy.Scene.Depth.{depth_of_ends}

is_seen-insert_int : (x y : ℤ) (ys : List ℤ) → is_seen x (insert_int y ys) ≡ y == x || is_seen x ys
unfolding is_seen insert_int
is_seen-insert_int x y [] = refl
is_seen-insert_int x y (z ∷ zs) = ground (arith, is_seen-insert_int x y zs)

pub is_seen-sort_ints : (x : ℤ) (xs : List ℤ) → is_seen x (sort_ints xs) ≡ is_seen x xs
unfolding is_seen sort_ints
is_seen-sort_ints x [] = refl
is_seen-sort_ints x (y ∷ ys) =
    rw (is_seen-insert_int x y (sort_ints ys), is_seen-sort_ints x ys) refl

pub is_seen-keys : {V : Type 0} (x : ℤ) (d : Dict ℤ V) → is_seen x (keys d) ≡ contains x d
unfolding is_seen contains lookup
is_seen-keys x [] = refl
is_seen-keys x ((k, v) ∷ d) = ground (arith, is_seen-keys x d)

pub is_seen-box_pids : (x : ℤ) (w : World) → is_seen x (box_pids w) ≡ contains x w.processes
unfolding box_pids
is_seen-box_pids x w = is_seen-sort_ints x (keys w.processes) ∙ is_seen-keys x w.processes

is_seen-append : (x : ℤ) (xs ys : List ℤ) → is_seen x (xs ++ ys) ≡ is_seen x xs || is_seen x ys
unfolding is_seen
is_seen-append x [] ys = refl
is_seen-append x (y ∷ xs) ys = ground (arith, is_seen-append x xs ys)

-- What holds of every pid that occurs holds of all.
All-of_seen : (P : ℤ → Type 0) (xs : List ℤ) → ((x : ℤ) → is_seen x xs ≡ true → P x) → All P xs
unfolding is_seen
All-of_seen P [] h = tt
All-of_seen P (x ∷ xs) h =
    (h x (ground (arith, int_beq_iff x x)), All-of_seen P xs (λ y seen. h y (ground arith)))

-- The pid is in one of the rows.
unfoldable pub in_rows : ℤ → Rows → Bool
in_rows x [] = false
in_rows x ((d, row) ∷ rows) = is_seen x row || in_rows x rows

in_rows-new :
    (x q : ℤ) (depth : ℕ) (rows : Rows)
    → lookup depth rows ≡ none
    → in_rows x (insert depth (q ∷ []) rows) ≡ in_rows x rows || q == x
unfolding in_rows lookup insert is_seen
in_rows-new x q depth [] h = ground arith
in_rows-new x q depth ((d, row) ∷ rows) h = ground (arith, in_rows-new x q depth rows)

in_rows-more :
    (x q : ℤ) (depth : ℕ) (row : List ℤ) (rows : Rows)
    → lookup depth rows ≡ some row
    → in_rows x (insert depth (row ++ q ∷ []) rows) ≡ in_rows x rows || q == x
unfolding in_rows lookup insert is_seen
in_rows-more x q depth row [] h = cc
in_rows-more x q depth row ((d, row') ∷ rows) h = ground (
  arith,
  some-injective row' row,
  is_seen-append x row' (q ∷ []),
  in_rows-more x q depth row rows,
)

in_rows-add_to_row :
    (x q : ℤ) (depth : ℕ) (rows : Rows)
    → in_rows x (add_to_row depth q rows) ≡ in_rows x rows || q == x
unfolding add_to_row
in_rows-add_to_row x q depth rows = elim (Option-cases (lookup depth rows)) [
  | inl new ↦ rw (new, add_to_row) (in_rows-new x q depth rows new)
  | inr (row, old) ↦ rw (old, add_to_row) (in_rows-more x q depth row rows old)
]

module _ (w : World) where
  -- Each row has the pids of its depth.
  abbrev pub AreSorted : Rows → Type 0
  AreSorted = All (λ (r : ℕ × List ℤ). All (λ pid. depth_of pid w ≡ some r.0) r.1)

  insert-AreSorted :
      (depth : ℕ) (row : List ℤ) (rows : Rows)
      → All (λ pid. depth_of pid w ≡ some depth) row
      → AreSorted rows
      → AreSorted (insert depth row rows)
  unfolding insert
  insert-AreSorted depth row [] h _ = (h, tt)
  insert-AreSorted depth row ((d, row') ∷ rows) h (hr, hs) =
      if_cases AreSorted (d == depth) _ _
        (λ same.
          let e : depth ≡ d = ground arith in
          (subst (λ n. All (λ pid. depth_of pid w ≡ some n) row) e h, hs))
        (λ _. (hr, insert-AreSorted depth row rows h hs))

  lookup-AreSorted :
      (depth : ℕ) (row : List ℤ) (rows : Rows)
      → AreSorted rows
      → lookup depth rows ≡ some row
      → All (λ pid. depth_of pid w ≡ some depth) row
  unfolding lookup
  lookup-AreSorted depth row [] hs found = cc
  lookup-AreSorted depth row ((d, row') ∷ rows) (hr, hs) found = elim (Bool-cases (d == depth)) [
    | inl same ↦
        let e : d ≡ depth = ground arith in
        let r : row' ≡ row = ground (arith, some-injective row' row) in
        subst (λ n. All (λ pid. depth_of pid w ≡ some n) row) e
          (subst (All (λ pid. depth_of pid w ≡ some d)) r hr)
    | inr new ↦ lookup-AreSorted depth row rows hs (ground arith)
  ]

  add_to_row-AreSorted :
      (depth : ℕ) (pid : ℤ) (rows : Rows)
      → depth_of pid w ≡ some depth
      → AreSorted rows
      → AreSorted (add_to_row depth pid rows)
  unfolding add_to_row
  add_to_row-AreSorted depth pid rows h hs = elim (Option-cases (lookup depth rows)) [
    | inl new ↦ rw (new, add_to_row) (insert-AreSorted depth (pid ∷ []) rows (h, tt) hs)
    | inr (row, old) ↦
        rw (old, add_to_row)
          (insert-AreSorted depth (row ++ pid ∷ []) rows
            (All-append _ row (pid ∷ []) (lookup-AreSorted depth row rows hs old) (h, tt)) hs)
  ]

  -- Rows that hold their pids and those of a list.
  abbrev pub Gathers : List ℤ → Rows → Rows → Type 0
  Gathers pids rows rows' =
      AreSorted rows' × ((x : ℤ) → in_rows x rows' ≡ in_rows x rows || is_seen x pids)

  pub rows_of-Gathers :
      (pids : List ℤ) (rows : Rows)
      → All (λ pid. contains pid w.processes ≡ true) pids
      → AreSorted rows
      → (rows' : Rows) × (rows_of w pids rows ≡ some rows') × Gathers pids rows rows'
  unfolding rows_of is_seen
  rows_of-Gathers [] rows _ hs = (rows, refl, (hs, λ x. ground arith))
  rows_of-Gathers (pid ∷ pids) rows (known, hk) hs =
      let (p, here) = lookup_of_contains pid w.processes known in
      let (n, deep, _) = depth_of_ends pid p w here in
      let (rows', made, (hs', all)) =
        rows_of-Gathers pids (add_to_row n pid rows) hk (add_to_row-AreSorted n pid rows deep hs) in
      rw (deep, rows_of)
        (rows', made, (hs', λ x. ground (arith, all x, in_rows-add_to_row x pid n rows)))

or_shift : (a b c : Bool) → (a || b) || c ≡ b || (a || c)
or_shift a b c = ground arith

-- The boxes after a row, and after rows.
contains-place_row :
    (x : ℤ) (n depth i : ℕ) (row : List ℤ) (rects : Dict ℤ Box)
    → contains x (place_row n depth i row rects) ≡ contains x rects || is_seen x row
unfolding place_row is_seen
contains-place_row x n depth i [] rects = ground arith
contains-place_row x n depth i (pid ∷ pids) rects =
    contains-place_row x n depth (suc i) pids _
    ∙ ap (λ b. b || is_seen x pids) (contains-insert pid x _ rects)
    ∙ or_shift (pid == x) (contains x rects) (is_seen x pids)

contains-place_rows :
    (x : ℤ) (rows : Rows) (rects : Dict ℤ Box)
    → contains x (place_rows rows rects) ≡ contains x rects || in_rows x rows
unfolding place_rows in_rows
contains-place_rows x [] rects = ground arith
contains-place_rows x ((depth, row) ∷ rows) rects =
    contains-place_rows x rows (place_row (length row) depth 0 row rects)
    ∙ ground (arith, contains-place_row x (length row) depth 0 row rects)

contains-lone :
    (x : ℤ) (pids : List ℤ) → contains x (map (λ pid. (pid, lone_box)) pids) ≡ is_seen x pids
unfolding contains lookup is_seen
contains-lone x [] = refl
contains-lone x (pid ∷ pids) = ground (arith, contains-lone x pids)

pub box_pids-All : (w : World) → All (λ pid. contains pid w.processes ≡ true) (box_pids w)
box_pids-All w = All-of_seen _ (box_pids w) (λ x seen. sym (is_seen-box_pids x w) ∙ seen)

-- The layout of every world is computed without an exception, and exactly the pids of the world
-- have a box in it.
pub layout_covers :
    (w : World) (pid : ℤ)
    → (rects : Dict ℤ Box) × (layout w ≡ some rects)
      × (contains pid rects ≡ contains pid w.processes)
unfolding layout contains lookup in_rows
layout_covers w pid = elim (Bool-cases (leb (length (box_pids w)) 1)) [
  | inl lone ↦
      rw (lone, layout)
        (
          map (λ q. (q, lone_box)) (box_pids w),
          refl,
          contains-lone pid (box_pids w) ∙ is_seen-box_pids pid w,
        )
  | inr many ↦
      let (rows, made, (_, all)) = rows_of-Gathers w (box_pids w) [] (box_pids-All w) tt in
      rw (many, made, layout)
        (
          place_rows rows [],
          refl,
          contains-place_rows pid rows [] ∙ all pid ∙ is_seen-box_pids pid w,
        )
]
