-- ===== src/Collector/Memory/Bounds.antt =====
-- The ranges that `read_child_string` reads, and its buffer.
use mathlib.Core.Option.{some-injective}
use fuddy_duddy.Prelude.{
  ℕ, zero, suc, ◌+◌, ◌%◌, ◌≤◌, ◌<◌, ◌≡◌, refl, sym, ◌∙◌, ap, false, not, ◌&&◌, Bool-cases, inl, inr,
  Option, none, some, List, [], ◌∷◌, length, length-append, All, All-append, ltb, ltb→lt, ◌==◌,
  nat_eq, if_cases, if◌then◌else◌, arith,
}
use fuddy_duddy.Text.Numeral.Length.{words}
use fuddy_duddy.Collector.Memory.{
  Readv, room, has_nul, until_nul, Chunks, wanted, after_read, read_chunks, found,
  read_child_string,
}
use fuddy_duddy.Collector.Memory.Reading.{round, closed, wanted-IsBounded}

-- A range of at least a byte that does not leave its page.
abbrev pub InPage : ℕ → ℕ → Type 0
InPage a n = (0 < n) × (a % 4096 + n ≤ 4096)

-- What follows a read does not matter where nothing is read.
pub after_read_same :
    (got : List ℕ) (rest other : Option Chunks)
    → (0 < length got → rest ≡ other)
    → after_read got rest ≡ after_read got other
unfolding after_read
after_read_same [] rest other same = refl
after_read_same (b ∷ bs) rest other same = rw (same (omega arith)) refl

same_chunks :
    (f g : Readv)
    → ((a n : ℕ) → InPage a n → f a n ≡ g a n)
    → (fuel addr total : ℕ) → read_chunks fuel f addr total ≡ read_chunks fuel g addr total
same_chunks f g agree zero addr total = unfold read_chunks in refl
same_chunks f g agree (suc fuel) addr total = elim (Bool-cases (ltb total room)) [
  | inl fits ↦
      let cur = (addr + total) % words in
      let n = wanted cur total in
      let (full, _, page) = wanted-IsBounded cur total (ltb→lt total room fits) in
      round fuel f addr total (g cur n) (ltb→lt total room fits) (agree cur n (full, page))
      ∙ ap (after_read (g cur n)) (same_chunks f g agree fuel addr (total + length (g cur n)))
      ∙ sym (round fuel g addr total (g cur n) (ltb→lt total room fits) refl)
  | inr shut ↦
      closed fuel f addr total (ground arith) ∙ sym (closed fuel g addr total (ground arith))
]

-- What `read_child_string` finds depends only on reads of at least a byte that stay inside a page:
-- where two answers of `process_vm_readv` are the same for those, the results are the same at
-- every address.
pub reads-InPage :
    (f g : Readv)
    → ((a n : ℕ) → InPage a n → f a n ≡ g a n)
    → (addr : ℕ) → read_child_string f addr ≡ read_child_string g addr
unfolding read_child_string
reads-InPage f g agree addr =
    ap
      (λ (o : Option Chunks). if addr == 0 then none else elim o [ some c ↦ found c | none ↦ none ])
      (same_chunks f g agree (suc room) addr 0)

-- A byte that is not NUL.
abbrev pub IsText : ℕ → Type 0
IsText b = (0 < b) × (b < 256)

-- `process_vm_readv` copies bytes, and not more than asked for.
abbrev pub IsReading : Readv → Type 0
IsReading readv = (a n : ℕ) → (length (readv a n) ≤ n) × All (λ b. b < 256) (readv a n)

until_nul-IsText :
    (bs : List ℕ)
    → All (λ b. b < 256) bs
    → All IsText (until_nul bs) × (length (until_nul bs) ≤ length bs)
unfolding until_nul
until_nul-IsText [] _ = (tt, omega arith)
until_nul-IsText (b ∷ bs) (h, hs) = let (text, short) = until_nul-IsText bs hs in ground arith

no_nul : (bs : List ℕ) → All (λ b. b < 256) bs → has_nul bs ≡ false → All IsText bs
unfolding has_nul
no_nul [] _ _ = tt
no_nul (b ∷ bs) (h, hs) none_yet = ground (arith, no_nul bs hs)

abbrev Fits : ℕ → Option Chunks → Type 0
Fits total none = Unit
Fits total (some c) = All IsText c.text × (total + length c.text ≤ room)

after_read-Fits :
    (got : List ℕ) (rest : Option Chunks) (total : ℕ)
    → All (λ b. b < 256) got
    → total + length got ≤ room
    → Fits (total + length got) rest
    → Fits total (after_read got rest)
unfolding after_read
after_read-Fits [] rest total _ h _ = (tt, omega arith)
after_read-Fits (b ∷ bs) none total bytes h _ =
    let (front, short) = until_nul-IsText (b ∷ bs) bytes in
    if_cases (Fits total) (has_nul (b ∷ bs)) _ _ (λ _. (front, omega arith)) (λ _. tt)
after_read-Fits (b ∷ bs) (some rest) total bytes h (text, fits) =
    let all = b ∷ bs in
    let (front, short) = until_nul-IsText all bytes in
    if_cases (Fits total) (has_nul all) _ _ (λ _. (front, omega arith))
      (λ none_yet. (
        All-append IsText all rest.text (no_nul all bytes none_yet) text,
        omega (arith, length-append all rest.text),
      ))

read_chunks-Fits :
    (readv : Readv)
    → IsReading readv
    → (fuel addr total : ℕ) → total ≤ room
    → Fits total (read_chunks fuel readv addr total)
unfolding read_chunks
read_chunks-Fits readv reads zero addr total h = tt
read_chunks-Fits readv reads (suc fuel) addr total h =
    if_cases (Fits total) (ltb total room) _ _
      (λ fits.
        let cur = (addr + total) % words in
        let n = wanted cur total in
        let (short, bytes) = reads cur n in
        let (_, in_room, _) = wanted-IsBounded cur total (ltb→lt total room fits) in
        after_read-Fits (readv cur n) _ total bytes (omega arith)
          (read_chunks-Fits readv reads fuel addr (total + length (readv cur n)) (omega arith)))
      (λ _. (tt, omega arith))

found-Fits :
    (o : Option Chunks) (s : List ℕ)
    → Fits 0 o
    → elim o [ some c ↦ found c | none ↦ none ] ≡ some s
    → All IsText s × (length s ≤ room)
unfolding found
found-Fits none s _ = λ h. cc
found-Fits (some c) s (text, fits) =
    if_cases (λ o. o ≡ some s → All IsText s × (length s ≤ room)) (length c.text == 0 && not c.done)
      _ _ (λ _ h. cc)
      (λ _ h. let same = some-injective c.text s h in rw (← same) (text, omega arith))

-- Where `process_vm_readv` copies bytes and no more than it is asked for, what `read_child_string`
-- finds fits the buffer of 4096 bytes with a NUL behind it, and holds no NUL.
pub read_child_string-IsText :
    (readv : Readv) (addr : ℕ) (s : List ℕ)
    → IsReading readv
    → read_child_string readv addr ≡ some s
    → All IsText s × (length s ≤ room)
unfolding read_child_string
read_child_string-IsText readv addr s reads =
    if_cases (λ o. o ≡ some s → All IsText s × (length s ≤ room)) (addr == 0) _ _ (λ _ h. cc)
      (λ _. found-Fits _ s (read_chunks-Fits readv reads (suc room) addr 0 (omega arith)))
