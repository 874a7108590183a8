-- ===== src/Collector/Memory.antt =====
-- collector/tracer.c: the part of `read_child_string` that fills the buffer. `process_vm_readv` is an
-- argument; its failure, a result of 0 or below, is an empty list.
pub mod Reading
pub mod Bounds
pub mod Rounds
use mathlib.Core.Option
use fuddy_duddy.Prelude.{
  ℕ, zero, suc, ◌+◌, ◌-◌, ◌%◌, Bool, true, false, ◌&&◌, not, Option, none, some, List, [], ◌∷◌,
  ◌++◌, length, ltb, ◌==◌, nat_eq, if◌then◌else◌,
}
use fuddy_duddy.Text.Numeral.Length.{words}

-- The bytes that `process_vm_readv` copies from an address, for a length.
abbrev pub Readv : Type 0
Readv = ℕ → ℕ → List ℕ

-- sizeof(buf) - 1
abbrev pub room : ℕ
room = 4095

unfoldable pub has_nul : List ℕ → Bool
has_nul [] = false
has_nul (b ∷ bs) = let rest = has_nul bs in if b == 0 then true else rest

-- The bytes in front of the first NUL.
unfoldable pub until_nul : List ℕ → List ℕ
until_nul [] = []
until_nul (b ∷ bs) = let rest = until_nul bs in if b == 0 then [] else b ∷ rest

-- What the loop leaves: buf[0..total) and `done`.
pub record Chunks : Type 0 where
  pub text : List ℕ
  pub done : Bool

abbrev pub nothing : Chunks
nothing = record { text = []; done = false }

-- want, at the address `cur` with `total` bytes read
unfoldable pub wanted : ℕ → ℕ → ℕ
wanted cur total =
    let page_left = 4096 - cur % 4096 in
    let want = room - total in if ltb page_left want then page_left else want

-- The loop's body behind the read: `break` where nothing was read, the end at a NUL, and else on.
unfoldable pub after_read : List ℕ → Option Chunks → Option Chunks
unfolding has_nul until_nul
after_read [] rest = some nothing
after_read (b ∷ bs) rest =
    if has_nul (b ∷ bs)
    then some (record { text = until_nul (b ∷ bs); done = true })
    else Option.map (λ (c : Chunks). record { text = (b ∷ bs) ++ c.text; done = c.done }) rest

-- The loop from `total` on, on fuel: `none` where it has not ended when the fuel is used up. A test of
-- the loop's condition takes one from the fuel.
unfoldable pub read_chunks : ℕ → Readv → ℕ → ℕ → Option Chunks
unfolding wanted after_read
read_chunks zero readv addr total = none
read_chunks (suc fuel) readv addr total =
    let cur = (addr + total) % words in
    let got = readv cur (wanted cur total) in
    let rest = read_chunks fuel readv addr (total + length got) in
    if ltb total room then after_read got rest else some nothing

-- total == 0 && !done
unfoldable pub found : Chunks → Option (List ℕ)
found c = if length c.text == 0 && not c.done then none else some c.text

-- read_child_string, up to the escaping: the string's bytes, or `none` for -1.
unfoldable pub read_child_string : Readv → ℕ → Option (List ℕ)
unfolding read_chunks found
read_child_string readv addr =
    if addr == 0
    then none
    else elim (read_chunks (suc room) readv addr 0) [ some c ↦ found c | none ↦ none ]
