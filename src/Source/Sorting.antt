-- ===== src/Source/Sorting.antt =====
-- The stable sort of a script.
use fuddy_duddy.Prelude.{
  ℕ, ◌≤◌, ◌≡◌, refl, ◌∙◌, Bool-cases, inl, inr, List, [], ◌∷◌, leb, leb→le, arith, All, if_intro,
}
use fuddy_duddy.Source.{Item, insert_item, sorted, due, last_frame}

abbrev pub IsFrom : ℕ → List Item → Type 0
IsFrom f = All (λ x. f ≤ x.0)

abbrev pub IsSorted : List Item → Type 0
IsSorted [] = Unit
IsSorted (x ∷ xs) = IsFrom x.0 xs × IsSorted xs

pub IsFrom-trans : (f g : ℕ) (xs : List Item) → f ≤ g → IsFrom g xs → IsFrom f xs
IsFrom-trans f g [] h _ = tt
IsFrom-trans f g (x ∷ xs) h (p, ps) = (omega arith, IsFrom-trans f g xs h ps)

IsFrom-insert_item :
    (f : ℕ) (x : Item) (ys : List Item) → f ≤ x.0 → IsFrom f ys → IsFrom f (insert_item x ys)
unfolding insert_item
IsFrom-insert_item f x [] h _ = (h, tt)
IsFrom-insert_item f x (y ∷ ys) h (p, ps) =
    if_intro (IsFrom f) (leb x.0 y.0) _ _ (h, (p, ps)) (p, IsFrom-insert_item f x ys h ps)

insert_item-IsSorted : (x : Item) (ys : List Item) → IsSorted ys → IsSorted (insert_item x ys)
unfolding insert_item
insert_item-IsSorted x [] _ = (tt, tt)
insert_item-IsSorted x (y ∷ ys) (p, ps) = elim (Bool-cases (leb x.0 y.0)) [
  | inl le ↦ rw le ((leb→le x.0 y.0 le, IsFrom-trans x.0 y.0 ys (leb→le x.0 y.0 le) p), (p, ps))
  | inr gt ↦ rw gt (IsFrom-insert_item y.0 x ys (ground arith) p, insert_item-IsSorted x ys ps)
]

-- The script of a source is in the order of its frames.
pub sorted-IsSorted : (xs : List Item) → IsSorted (sorted xs)
unfolding sorted
sorted-IsSorted [] = tt
sorted-IsSorted (x ∷ xs) = insert_item-IsSorted x (sorted xs) (sorted-IsSorted xs)

due-insert_item : (f : ℕ) (x : Item) (ys : List Item) → due f (insert_item x ys) ≡ due f (x ∷ ys)
unfolding due insert_item
due-insert_item f x [] = refl
due-insert_item f x (y ∷ ys) = ground (arith, due-insert_item f x ys)

-- Sorting a script changes neither which events stand at a frame nor their order.
pub due-sorted : (f : ℕ) (xs : List Item) → due f (sorted xs) ≡ due f xs
unfolding sorted due
due-sorted f [] = refl
due-sorted f (x ∷ xs) = due-insert_item f x (sorted xs) ∙ ground (arith, due-sorted f xs)

-- No item stands behind the last frame.
pub sorted-le-last_frame : (xs : List Item) → IsSorted xs → All (λ x. x.0 ≤ last_frame xs) xs
unfolding last_frame
sorted-le-last_frame [] _ = tt
sorted-le-last_frame (x ∷ []) _ = (omega arith, tt)
sorted-le-last_frame (x ∷ y ∷ ys) ((p, _), s) =
    let rest = sorted-le-last_frame (y ∷ ys) s in (omega arith, rest)
