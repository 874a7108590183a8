-- ===== src/Collector/Stop/Bounds.antt =====
-- The lengths of ENTER lines.
use fuddy_duddy.Prelude.{
  ℕ, zero, suc, ◌+◌, ◌-◌, ◌≤◌, ◌<◌, ◌≡◌, refl, ◌∙◌, ap, Bool, true, false, none, some, List, [],
  ◌∷◌, ◌++◌, length, length-append, leb, take, map, lt→ltb, Option, append_assoc, if_cases, arith,
}
use fuddy_duddy.Int.{ℤ, pos}
use fuddy_duddy.Wire.Tracer.{is_special, escape, join, token, enter_fields, args_text, enter_line}
use fuddy_duddy.Text.Numeral.Length.{words, hex_digits, long_digits, IsInt, pid_digits}
use fuddy_duddy.Collector.Stop.{
  Entry, entry_args, str_arg, string_text, attach, with_string, entry_line,
}
use fuddy_duddy.Collector.Memory.{Readv, read_child_string}
use fuddy_duddy.Text.{Str, codes, print_ℤ}

length-escape : (room : ℕ) (bs : List ℕ) → 0 < room → length (escape room bs) < room
unfolding escape
length-escape room [] h = h
length-escape room (c ∷ bs) h =
    if_cases (λ (s : Str). length s < room) (is_special c) _ _
      (λ _.
        if_cases (λ (s : Str). length s < room) (leb room 3) _ _ (λ _. h)
          (λ free. let rest = length-escape (room - 3) bs (ground arith) in ground arith))
      (λ _.
        if_cases (λ (s : Str). length s < room) (leb room 1) _ _ (λ _. h)
          (λ free. let rest = length-escape (room - 1) bs (ground arith) in ground arith))

pub take_all : (n : ℕ) (s : Str) → length s ≤ n → take n s ≡ s
take_all n [] h = refl
take_all zero (c ∷ s) h = absurd (omega arith)
take_all (suc n) (c ∷ s) h = ap (λ l. c ∷ l) (take_all n s (omega arith))

pub join-snoc :
    (t : Str) (ts : List Str) (u : Str) → join (t ∷ ts) ++ b' ' ∷ u ≡ join (t ∷ ts ++ u ∷ [])
unfolding join
join-snoc t [] u = refl
join-snoc t (v ∷ ts) u =
    append_assoc t (b' ' ∷ join (v ∷ ts)) (b' ' ∷ u) ∙ ap (λ s. t ++ b' ' ∷ s) (join-snoc v ts u)

-- The registers of a stop are 64 bits wide.
pub record IsEntry (e : Entry) : Type 0 where
  pub nr_fits : e.nr < words
  pub a0_fits : e.a0 < words
  pub a1_fits : e.a1 < words
  pub a2_fits : e.a2 < words
  pub a3_fits : e.a3 < words
  pub a4_fits : e.a4 < words
  pub a5_fits : e.a5 < words

length-parted :
    (s : Str) (c : ℕ) (rest : Str) → length (s ++ c ∷ rest) ≡ length s + suc (length rest)
length-parted s c rest = length-append s (c ∷ rest)

length-args : (e : Entry) → IsEntry e → length (entry_args e) ≤ 101
unfolding args_text
length-args e h =
    let d0 = hex_digits e.a0 h.a0_fits in
    let d1 = hex_digits e.a1 h.a1_fits in
    let d2 = hex_digits e.a2 h.a2_fits in
    let d3 = hex_digits e.a3 h.a3_fits in
    let d4 = hex_digits e.a4 h.a4_fits in
    let d5 = hex_digits e.a5 h.a5_fits in simp length-parted (omega arith)

-- The part of an ENTER line without its string.
length-enter_line :
    (pid : ℤ) (ts : ℕ) (e : Entry)
    → IsInt pid
    → ts < words
    → IsEntry e
    → length (enter_line pid ts e.nr (entry_args e) none) ≤ 176
unfolding enter_line join
length-enter_line pid ts e pid_fits ts_fits h =
    let p = pid_digits pid pid_fits in
    let t : length (print_ℤ (pos ts)) ≤ 20 = unfold print_ℤ in long_digits ts ts_fits in
    let n : length (print_ℤ (pos e.nr)) ≤ 20 = unfold print_ℤ in long_digits e.nr h.nr_fits in
    let a = length-args e h in simp length-parted (omega arith)

-- The string that a stop carries, if any.
unfoldable pub string_of : Readv → Option (Bool × ℕ) → Option (Bool × List ℕ)
string_of readv none = none
string_of readv (some (argument, addr)) = elim (read_child_string readv addr) [
  | none ↦ none
  | some bs ↦ some (argument, bs)
]

length-string_text : (argument : Bool) (bs : List ℕ) → length (string_text argument bs) < 6150
unfolding string_text
length-string_text true bs = omega (arith, length-escape 6144 bs (omega arith))
length-string_text false bs = omega (arith, length-escape 6144 bs (omega arith))

module _ (pid : ℤ) (ts : ℕ) (e : Entry) where
  abbrev full : Option (Bool × List ℕ) → Str
  full string = enter_line pid ts e.nr (entry_args e) string

  joined :
      (argument : Bool) (bs : List ℕ)
      → full none ++ string_text argument bs ≡ full (some (argument, bs))
  unfolding enter_line string_text
  joined true bs =
      join-snoc (codes "ENTER") (map token (enter_fields pid ts e.nr (entry_args e) none))
        (token (codes "str1", escape 6144 bs))
  joined false bs =
      join-snoc (codes "ENTER") (map token (enter_fields pid ts e.nr (entry_args e) none))
        (token (codes "str0", escape 6144 bs))

  attached_line :
      (argument : Bool)
      → length (full none) ≤ 176
      → (read : Option (List ℕ))
      → attach (length (full none)) (full none) argument read
        ≡ full (elim read [ none ↦ none | some bs ↦ some (argument, bs) ])
  unfolding attach
  attached_line argument short none = refl
  attached_line argument short (some bs) =
      ap (λ s. full none ++ s)
        (take_all _ (string_text argument bs) (omega (arith, length-string_text argument bs)))
      ∙ joined argument bs

  with_string_lem :
      (readv : Readv) (arg : Option (Bool × ℕ))
      → length (full none) ≤ 176
      → with_string readv (length (full none)) (full none) arg ≡ full (string_of readv arg)
  unfolding with_string string_of
  with_string_lem readv none short = refl
  with_string_lem readv (some (argument, addr)) short =
      rw (lt→ltb (length (full none)) 8192 (omega arith))
        (attached_line argument short (read_child_string readv addr))

  full_short :
      length (full none) ≤ 176 → (string : Option (Bool × List ℕ)) → length (full string) < 8192
  full_short short none = omega arith
  full_short short (some (argument, bs)) = rw (← joined argument bs) (
      omega (
        arith,
        length-append (full none) (string_text argument bs),
        length-string_text argument bs,
      ))

  -- The ENTER line of a stop whose pid is a value of `int`, and whose time, syscall number and
  -- arguments are 64 bits wide, is never cut by the buffers of 8192 characters: it is the line of
  -- these numbers with the string that was read of the thread's memory, if one was, and that line
  -- is shorter than 8192 characters.
  pub entry_line-IsWhole :
      (readv : Readv)
      → IsInt pid
      → ts < words
      → IsEntry e
      → (entry_line pid ts e readv ≡ full (string_of readv (str_arg e)))
        × (length (full (string_of readv (str_arg e))) < 8192)
  unfolding entry_line
  entry_line-IsWhole readv pid_fits ts_fits h =
      let short = length-enter_line pid ts e pid_fits ts_fits h in
      let whole = take_all 8191 (full none) (omega arith) in
      let line =
        ap (λ s. with_string readv (length (full none)) s (str_arg e)) whole
        ∙ with_string_lem readv (str_arg e) short in
      (line, full_short short (string_of readv (str_arg e)))
