-- ===== src/Collector/Memory/Rounds.antt =====
-- The rounds of the loop of `read_child_string`.
use fuddy_duddy.Prelude.{
  ℕ, zero, suc, ◌+◌, ◌-◌, ◌%◌, ◌≤◌, ◌<◌, ◌≡◌, refl, sym, ◌∙◌, ap, Bool-cases, inl, inr, Option,
  some, List, [], ◌∷◌, length, ltb, ltb→lt, if_cases, arith,
}
use fuddy_duddy.Text.Numeral.Length.{words}
use fuddy_duddy.Collector.Memory.{Readv, room, has_nul, Chunks, wanted, after_read, read_chunks}
use fuddy_duddy.Collector.Memory.Reading.{round, closed}
use fuddy_duddy.Collector.Memory.Bounds.{after_read_same}

-- Where the loop behind a read of at least a byte ends, the loop ends.
after_read_ends :
    (got : List ℕ) (rest : Option Chunks)
    → (0 < length got → (c : Chunks) × (rest ≡ some c))
    → (c : Chunks) × (after_read got rest ≡ some c)
unfolding after_read
after_read_ends [] rest ends = (_, refl)
after_read_ends (b ∷ bs) rest ends =
    let (c, e) = ends (omega arith) in
    rw e (
      if_cases (λ (o : Option Chunks). (c : Chunks) × (o ≡ some c)) (has_nul (b ∷ bs)) _ _
        (λ _. (_, refl)) (λ _. (_, refl)))

-- A turn for each byte that fits, and one for the last test of the condition, are enough.
read_chunks_ends :
    (readv : Readv) (fuel addr total : ℕ)
    → room < fuel + total
    → 0 < fuel
    → (c : Chunks) × (read_chunks fuel readv addr total ≡ some c)
read_chunks_ends readv zero addr total h full = absurd (omega arith)
read_chunks_ends readv (suc fuel) addr total h full = elim (Bool-cases (ltb total room)) [
  | inl fits ↦
      let cur = (addr + total) % words in
      let got = readv cur (wanted cur total) in
      let inside = ltb→lt total room fits in
      let (c, e) = after_read_ends got (read_chunks fuel readv addr (total + length got)) (λ more.
        read_chunks_ends readv fuel addr (total + length got) (omega arith) (omega arith)) in
      (c, round fuel readv addr total got inside refl ∙ e)
  | inr shut ↦ (_, closed fuel readv addr total (ground arith))
]

-- More turns change nothing.
stable :
    (readv : Readv) (fuel addr total : ℕ)
    → room < fuel + total
    → 0 < fuel
    → read_chunks (suc fuel) readv addr total ≡ read_chunks fuel readv addr total
stable readv zero addr total h full = absurd (omega arith)
stable readv (suc fuel) addr total h full = elim (Bool-cases (ltb total room)) [
  | inl fits ↦
      let cur = (addr + total) % words in
      let got = readv cur (wanted cur total) in
      let inside = ltb→lt total room fits in
      round (suc fuel) readv addr total got inside refl
      ∙ after_read_same got _ _
          (λ more. stable readv fuel addr (total + length got) (omega arith) (omega arith))
      ∙ sym (round fuel readv addr total got inside refl)
  | inr shut ↦
      closed (suc fuel) readv addr total (ground arith)
      ∙ sym (closed fuel readv addr total (ground arith))
]

more_rounds :
    (readv : Readv) (addr more fuel : ℕ)
    → more + suc room ≡ fuel
    → read_chunks fuel readv addr 0 ≡ read_chunks (suc room) readv addr 0
more_rounds readv addr zero fuel e = ap (λ n. read_chunks n readv addr 0) (omega arith)
more_rounds readv addr (suc more) zero e = absurd (omega arith)
more_rounds readv addr (suc more) (suc fuel) e =
    stable readv fuel addr 0 (omega arith) (omega arith)
    ∙ more_rounds readv addr more fuel (omega arith)

-- The reading loop of `read_child_string` ends, whatever `process_vm_readv` answers: from the
-- start of the buffer it leaves a result within 4096 tests of its condition, not because the fuel
-- is used up, and it leaves the same result with any greater amount of fuel.
pub rounds_suffice :
    (readv : Readv) (addr fuel : ℕ)
    → 4096 ≤ fuel
    → (c : Chunks) × (read_chunks 4096 readv addr 0 ≡ some c)
      × (read_chunks fuel readv addr 0 ≡ some c)
rounds_suffice readv addr fuel enough =
    let (c, e) = read_chunks_ends readv (suc room) addr 0 (omega arith) (omega arith) in
    (c, e, more_rounds readv addr (fuel - suc room) fuel (omega arith) ∙ e)
