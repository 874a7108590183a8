-- ===== src/Collector/Memory/Reading.antt =====
-- `read_child_string` against the tracee's memory.
use mathlib.Core.Option
use fuddy_duddy.Prelude.{
  ℕ, zero, suc, ◌+◌, ◌/◌, ◌%◌, ◌≤◌, ◌<◌, ◌≡◌, ◌≢◌, refl, sym, ◌∙◌, ap, true, false, Bool-cases, inl,
  inr, Option, some, List, [], ◌∷◌, ◌++◌, length, length-append, ltb, ltb→lt, lt→ltb, ◌==◌, nat_eq,
  if_cases, arith,
}
use fuddy_duddy.Text.Numeral.Length.{words}
use fuddy_duddy.Collector.Memory.{
  Readv, room, has_nul, until_nul, Chunks, nothing, wanted, after_read, read_chunks, found,
  read_child_string,
}

-- The `n` bytes of a memory from an address on.
unfoldable pub bytes_at : (ℕ → ℕ) → ℕ → ℕ → List ℕ
bytes_at mem a zero = []
bytes_at mem a (suc n) = mem a ∷ bytes_at mem (a + 1) n

-- The memory has the string, and a NUL behind it, at an address.
abbrev pub HasString : (ℕ → ℕ) → ℕ → List ℕ → Type 0
HasString mem a [] = mem a ≡ 0
HasString mem a (b ∷ bs) = (b ≢ 0) × (mem a ≡ b) × HasString mem (a + 1) bs

-- `process_vm_readv` on a single range: inside one mapped page it copies all of it.
pub record IsReadv (mem : ℕ → ℕ) (IsMapped : ℕ → Type 0) (readv : Readv) : Type 0 where
  pub whole : (a n : ℕ) → a % 4096 + n ≤ 4096 → IsMapped (a / 4096) → readv a n ≡ bytes_at mem a n

-- A byte that is no NUL goes on.
on :
    (b : ℕ) (bs : List ℕ)
    → b ≢ 0
    → (has_nul (b ∷ bs) ≡ has_nul bs) × (until_nul (b ∷ bs) ≡ b ∷ until_nul bs)
unfolding has_nul until_nul
on b bs full = rw (not_nul) (refl, refl)
  where
    not_nul : (b == 0) ≡ false
    not_nul = ground arith

-- A read that reaches the NUL.
nul_inside :
    (mem : ℕ → ℕ) (a n : ℕ) (s : List ℕ)
    → HasString mem a s
    → length s < n
    → (has_nul (bytes_at mem a n) ≡ true) × (until_nul (bytes_at mem a n) ≡ s)
unfolding bytes_at
nul_inside mem a zero s h short = absurd (omega arith)
nul_inside mem a (suc n) [] h short = unfold has_nul until_nul in rw h (refl, refl)
nul_inside mem a (suc n) (b ∷ s) (full, here, h) short =
    let (ends, text) = nul_inside mem (a + 1) n s h (omega arith) in
    let (skips, keeps) = on b (bytes_at mem (a + 1) n) full in
    rw here (skips ∙ ends, keeps ∙ ap (λ t. b ∷ t) text)

pub length-bytes_at : (mem : ℕ → ℕ) (a n : ℕ) → length (bytes_at mem a n) ≡ n
unfolding bytes_at
length-bytes_at mem a zero = refl
length-bytes_at mem a (suc n) = ap suc (length-bytes_at mem (a + 1) n)

-- A read that ends in front of the NUL.
nul_behind :
    (mem : ℕ → ℕ) (a n e : ℕ) (s : List ℕ)
    → HasString mem a s
    → n ≤ length s
    → a + n ≡ e
    → (has_nul (bytes_at mem a n) ≡ false)
      × ((rest : List ℕ) × (s ≡ bytes_at mem a n ++ rest) × HasString mem e rest)
unfolding bytes_at
nul_behind mem a zero e s h short end =
    let end' : a ≡ e = omega arith in unfold has_nul in rw (← end') (refl, (s, refl, h))
nul_behind mem a (suc n) e [] h short end = absurd (omega arith)
nul_behind mem a (suc n) e (b ∷ s) (full, here, h) short end =
    let (none_yet, (rest, split, behind)) =
      nul_behind mem (a + 1) n e s h (omega arith) (omega arith) in
    let (skips, _) = on b (bytes_at mem (a + 1) n) full in
    rw here (skips ∙ none_yet, (rest, ap (λ t. b ∷ t) split, behind))

-- A read is of at least a byte, stays inside the buffer, and does not leave the page.
pub wanted-IsBounded :
    (cur total : ℕ)
    → total < room
    → (0 < wanted cur total)
      × (total + wanted cur total ≤ room)
      × (cur % 4096 + wanted cur total ≤ 4096)
unfolding wanted
wanted-IsBounded cur total h = ground arith

after_nul :
    (bs s : List ℕ) (rest : Option Chunks)
    → has_nul bs ≡ true
    → until_nul bs ≡ s
    → after_read bs rest ≡ some (record { text = s; done = true })
unfolding after_read
after_nul [] s rest ends text = absurd (unfold has_nul in cc ends)
after_nul (b ∷ bs) s rest ends text = rw (ends, text) refl

after_more :
    (bs : List ℕ) (rest : Option Chunks)
    → has_nul bs ≡ false
    → 0 < length bs
    → after_read bs rest
      ≡ Option.map (λ (c : Chunks). record { text = bs ++ c.text; done = c.done }) rest
unfolding after_read
after_more [] rest more full = absurd (omega arith)
after_more (b ∷ bs) rest more full = rw more refl

-- Without room the loop ends.
pub closed :
    (fuel : ℕ) (readv : Readv) (addr total : ℕ)
    → room ≤ total
    → read_chunks (suc fuel) readv addr total ≡ some nothing
unfolding read_chunks
closed fuel readv addr total h =
    if_cases (λ c. c ≡ some nothing) (ltb total room) _ _ (λ fits. absurd (ground arith))
      (λ _. refl)

-- A round of the loop with room left, for what the read gives.
pub round :
    (fuel : ℕ) (readv : Readv) (addr total : ℕ) (got : List ℕ)
    → total < room
    → readv ((addr + total) % words) (wanted ((addr + total) % words) total) ≡ got
    → read_chunks (suc fuel) readv addr total
      ≡ after_read got (read_chunks fuel readv addr (total + length got))
unfolding read_chunks
round fuel readv addr total got fits e = rw (lt→ltb total room fits, e) refl

module _ (mem : ℕ → ℕ) (IsMapped : ℕ → Type 0) (readv : Readv) (reads : IsReadv mem IsMapped readv)
    (addr : ℕ) where
  -- A read at an address whose page is mapped.
  read_at :
      (total cur : ℕ)
      → total < room
      → addr + total < words
      → addr + total ≡ cur
      → IsMapped (cur / 4096)
      → readv ((addr + total) % words) (wanted ((addr + total) % words) total)
        ≡ bytes_at mem cur (wanted cur total)
  read_at total cur fits inside e mapped =
      let same : (addr + total) % words ≡ cur = omega arith in
      let (_, _, page) = wanted-IsBounded cur total fits in
      rw same (reads.whole cur (wanted cur total) page mapped)

  reads_from :
      (fuel total cur : ℕ) (s : List ℕ)
      → addr + total ≡ cur
      → HasString mem cur s
      → length s < fuel
      → total + length s < room
      → cur + length s < words
      → ((a : ℕ) → cur ≤ a → a ≤ cur + length s → IsMapped (a / 4096))
      → read_chunks fuel readv addr total ≡ some (record { text = s; done = true })
  reads_from zero total cur s e h enough short inside mapped = absurd (omega arith)
  reads_from (suc fuel) total cur s e h enough short inside mapped =
      let n = wanted cur total in
      let got = bytes_at mem cur n in
      let now : IsMapped (cur / 4096) = mapped cur (omega arith) (omega arith) in
      let (some_bytes, in_room, _) = wanted-IsBounded cur total (omega arith) in
      let size : length got ≡ n = length-bytes_at mem cur n in
      round fuel readv addr total got (omega arith)
        (read_at total cur (omega arith) (omega arith) e now)
      ∙ elim (Bool-cases (ltb (length s) n)) [
        | inl last ↦
            let (ends, text) = nul_inside mem cur n s h (ltb→lt (length s) n last) in
            after_nul got s _ ends text
        | inr more ↦
            let (none_yet, (rest, split, behind)) =
              nul_behind mem cur n (cur + n) s h (ground arith) refl in
            let parts : length s ≡ n + length rest =
              ap length split ∙ length-append got rest ∙ ap (λ k. k + length rest) size in
            after_more got _ none_yet (omega arith)
            ∙ ap (Option.map (λ (c : Chunks). record { text = got ++ c.text; done = c.done })) (
                reads_from fuel (total + length got) (cur + n) rest (omega arith) behind
                  (omega arith) (omega arith) (omega arith)
                  (λ a low high. mapped a (omega arith) (omega arith)))
            ∙ ap (λ t. some (record { text = t; done = true })) (sym split)
      ]

  -- Where the thread's memory has a string of at most 4094 bytes, none of them NUL, and a NUL
  -- behind it, at an address other than 0 and without a wrap of addresses, where the pages of the
  -- string and its NUL are mapped, and where `process_vm_readv` copies all of a range inside a
  -- mapped page, `read_child_string` finds exactly the bytes of the string; no other page need be
  -- mapped.
  pub read_child_string-HasString :
      (s : List ℕ)
      → addr ≢ 0
      → HasString mem addr s
      → length s < room
      → addr + length s < words
      → ((a : ℕ) → addr ≤ a → a ≤ addr + length s → IsMapped (a / 4096))
      → read_child_string readv addr ≡ some s
  unfolding read_child_string found
  read_child_string-HasString s valid h short inside mapped =
      rw
        (
          not_null,
          reads_from (suc room) 0 addr s (omega arith) h (omega arith) (omega arith) inside mapped,
        )
        (ground arith)
    where
      not_null : (addr == 0) ≡ false
      not_null = ground arith
