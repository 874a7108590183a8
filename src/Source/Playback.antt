-- ===== src/Source/Playback.antt =====
-- A source that is polled at frame after frame.
use native.Mathlib.Nat.{mul-add-mod_self_right, mod-eq_of_lt}
use fuddy_duddy.Prelude.{
  ℕ, zero, suc, ◌+◌, ◌*◌, ◌%◌, ◌≤◌, ◌<◌, ◌≡◌, refl, sym, ◌∙◌, ap, List, [], ◌∷◌, ◌++◌, map, Bool,
  true, Option, none, some, ltb, nat_beq, if◌then◌else◌, arith, All, append-nil, append_assoc,
}
use fuddy_duddy.Event.{Event}
use fuddy_duddy.Source.{Item, ScriptedSource, scripted, sorted, due, last_frame, poll}
use fuddy_duddy.Source.Sorting.{
  IsFrom, IsFrom-trans, IsSorted, sorted-IsSorted, sorted-le-last_frame,
}

-- The events before a frame, in the order of the script.
until : ℕ → List Item → List Event
until f [] = []
until f ((w, e) ∷ xs) = let rest = until f xs in if ltb w f then e ∷ rest else rest

due-late : (f : ℕ) (xs : List Item) → IsFrom (suc f) xs → due f xs ≡ []
unfolding due
due-late f [] _ = refl
due-late f (x ∷ xs) (p, ps) = ground (arith, due-late f xs ps)

until-late : (f : ℕ) (xs : List Item) → IsFrom f xs → until f xs ≡ []
unfolding until
until-late f [] _ = refl
until-late f (x ∷ xs) (p, ps) = ground (arith, until-late f xs ps)

-- The tail of a sorted script, where the head is not before `f`.
module _ (f : ℕ) (x : Item) (xs : List Item) (p : IsFrom x.0 xs) where
  until-tail : f ≤ x.0 → until f xs ≡ []
  until-tail h = until-late f xs (IsFrom-trans f x.0 xs h p)

  due-tail : suc f ≤ x.0 → due f xs ≡ []
  due-tail h = due-late f xs (IsFrom-trans (suc f) x.0 xs h p)

until-suc : (f : ℕ) (xs : List Item) → IsSorted xs → until (suc f) xs ≡ until f xs ++ due f xs
unfolding until due
until-suc f [] _ = refl
until-suc f (x ∷ xs) (p, s) =
    ground
      (arith, until-suc f xs s, until-tail f x xs p, until-tail (suc f) x xs p, due-tail f x xs p)

until-All : (f : ℕ) (xs : List Item) → All (λ x. x.0 < f) xs → until f xs ≡ map (λ x. x.1) xs
unfolding until
until-All f [] _ = refl
until-All f (x ∷ xs) (p, ps) = ground (arith, until-All f xs ps)

-- The events of `k` frames in a row.
dues : ℕ → ℕ → List Item → List Event
dues f zero xs = []
dues f (suc k) xs = due f xs ++ dues (suc f) k xs

until-dues : (f k : ℕ) (xs : List Item) → IsSorted xs → until f xs ++ dues f k xs ≡ until (f + k) xs
unfolding dues
until-dues f zero xs s = append-nil (until f xs) ∙ ap (λ n. until n xs) (omega arith)
until-dues f (suc k) xs s =
    sym (append_assoc (until f xs) (due f xs) (dues (suc f) k xs))
    ∙ ap (λ es. es ++ dues (suc f) k xs) (sym (until-suc f xs s))
    ∙ until-dues (suc f) k xs s
    ∙ ap (λ n. until n xs) (omega arith)

until-zero : (xs : List Item) → until 0 xs ≡ []
unfolding until
until-zero [] = refl
until-zero (x ∷ xs) = ground (arith, until-zero xs)

abbrev pub chain : Option (List Event) → Option (List Event) → Option (List Event)
chain none rest = none
chain (some es) none = none
chain (some es) (some rest) = some (es ++ rest)

-- The polls of `k` frames in a row, all events together.
abbrev pub play : ScriptedSource → ℕ → ℕ → Option (List Event)
play s f zero = some []
play s f (suc k) = chain (poll s f) (play s (suc f) k)

module _ (s : ScriptedSource) (looping : s.loop ≡ true) (n : ℕ) where
  poll_loop : (i : ℕ) → i < s.period → poll s (n * s.period + i) ≡ some (due i s.script)
  unfolding poll
  poll_loop i h =
      ap
        (λ (b : Bool).
          if b
          then (if nat_beq s.period 0
              then none
              else some (due ((n * s.period + i) % s.period) s.script))
          else some (due (n * s.period + i) s.script))
        looping
      ∙ ground (arith, mul-add-mod_self_right n s.period i, mod-eq_of_lt h)

  play_loop : (k i : ℕ) → i + k ≤ s.period → play s (n * s.period + i) k ≡ some (dues i k s.script)
  unfolding dues
  play_loop zero i h = refl
  play_loop (suc k) i h =
      let next : suc (n * s.period + i) ≡ n * s.period + suc i = omega arith in
      rw (poll_loop i (omega arith), next, play_loop k (suc i) (omega arith))

All-lt : (m n : ℕ) (xs : List Item) → m < n → All (λ x. x.0 ≤ m) xs → All (λ x. x.0 < n) xs
All-lt m n [] h _ = tt
All-lt m n (x ∷ xs) h (p, ps) = (omega arith, All-lt m n xs h ps)

early :
    (script : List Item) (pause : ℕ)
    → 0 < pause
    → All (λ x. x.0 < 0 + (scripted script true pause).period) (sorted script)
unfolding scripted
early script pause h =
    All-lt (last_frame (sorted script)) (0 + (last_frame (sorted script) + pause)) (sorted script)
      (omega arith) (sorted-le-last_frame (sorted script) (sorted-IsSorted script))

-- A looping source whose pause is not 0, polled at each frame of any one period, gives all the
-- events of its script once, in the order in which the script is sorted.
pub loop_plays_script :
    (script : List Item) (pause n : ℕ)
    → 0 < pause
    → let s = scripted script true pause in
      play s (n * s.period) s.period ≡ some (map (λ x. x.1) (sorted script))
unfolding scripted
loop_plays_script script pause n h =
    let s = scripted script true pause in
    let order = sorted-IsSorted script in
    let start : n * s.period ≡ n * s.period + 0 = omega arith in
    ap (λ f. play s f s.period) start
    ∙ play_loop s refl n s.period 0 (omega arith)
    ∙ ap some (
        ap (λ es. es ++ dues 0 s.period (sorted script)) (sym (until-zero (sorted script)))
        ∙ until-dues 0 s.period (sorted script) order
        ∙ until-All (0 + s.period) (sorted script) (early script pause h))
