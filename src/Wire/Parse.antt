-- ===== src/Wire/Parse.antt =====
-- `parse_line` of wire.py.
pub mod Order
use fuddy_duddy.Prelude.{List, [], ◌∷◌, none, some, ◌==◌, list_eq, if◌then◌else◌}
use fuddy_duddy.Int.{ℤ, int_eq}
use fuddy_duddy.Text.{Str, codes}
use fuddy_duddy.Text.Split.{split, split_on, strip_prefix}
use fuddy_duddy.Dict.{Dict, insert}
use fuddy_duddy.Wire.{
  Args, WireEvent, Result, ok, err, enter, exit, exited, signaled, spawn, empty_line, unknown_kind,
  wrong_arg_count, ◌>>=◌,
}
use fuddy_duddy.Wire.Fields.{fields_of, field, int, hex, int_field}
use fuddy_duddy.Wire.Unescape.{unescape}

-- tuple(int(a, 16) for a in tokens)
unfoldable pub hexes : List Str → Result (List ℤ)
hexes [] = ok []
hexes (a ∷ as') = let rest = hexes as' in do n ← hex a; ns ← rest; ok (n ∷ ns)

unfoldable pub six : List ℤ → Result Args
six (a ∷ b ∷ c ∷ d ∷ e ∷ f ∷ []) = ok (record { a0 = a; a1 = b; a2 = c; a3 = d; a4 = e; a5 = f })
six _ = err wrong_arg_count

-- The decoded strings of the fields whose key begins with `str`, behind those that are read already.
unfoldable pub read_strings : Dict ℤ Str → Dict Str Str → Result (Dict ℤ Str)
unfolding strip_prefix
read_strings strings [] = ok strings
read_strings strings ((key, value) ∷ fields) = elim (strip_prefix (codes "str") key) [
  | none ↦ read_strings strings fields
  | some index ↦ int index >>= λ n. unescape value >>= λ s. read_strings (insert n s strings) fields
]

unfoldable pub parse_enter : Dict Str Str → Result WireEvent
unfolding hexes six read_strings field int_field split_on
parse_enter fields = do
  raw ← field fields (codes "args")
  numbers ← hexes (split_on b',' raw)
  args ← six numbers
  strings ← read_strings [] fields
  pid ← int_field fields (codes "pid")
  ts ← int_field fields (codes "ts")
  nr ← int_field fields (codes "nr")
  ok (enter (record { pid = pid; ts = ts; nr = nr; args = args; strings = strings }))

unfoldable pub parse_exit : Dict Str Str → Result WireEvent
unfolding field int_field
parse_exit fields = do
  pid ← int_field fields (codes "pid")
  ts ← int_field fields (codes "ts")
  ret ← int_field fields (codes "ret")
  failed ← field fields (codes "err")
  ok (exit (record { pid = pid; ts = ts; ret = ret; err = failed == codes "1" }))

unfoldable pub parse_exited : Dict Str Str → Result WireEvent
unfolding int_field
parse_exited fields = do
  pid ← int_field fields (codes "pid")
  ts ← int_field fields (codes "ts")
  code ← int_field fields (codes "code")
  ok (exited (record { pid = pid; ts = ts; code = code }))

unfoldable pub parse_signaled : Dict Str Str → Result WireEvent
unfolding int_field
parse_signaled fields = do
  pid ← int_field fields (codes "pid")
  ts ← int_field fields (codes "ts")
  sig ← int_field fields (codes "sig")
  ok (signaled (record { pid = pid; ts = ts; sig = sig }))

unfoldable pub parse_spawn : Dict Str Str → Result WireEvent
unfolding int_field
parse_spawn fields = do
  pid ← int_field fields (codes "pid")
  ts ← int_field fields (codes "ts")
  child ← int_field fields (codes "child")
  ok (spawn (record { pid = pid; ts = ts; child = child }))

unfoldable pub parse_kind : Str → Dict Str Str → Result WireEvent
unfolding parse_enter parse_exit parse_exited parse_signaled parse_spawn
parse_kind kind fields =
    if kind == codes "ENTER"
    then parse_enter fields
    else if kind == codes "EXIT"
    then parse_exit fields
    else if kind == codes "EXITED"
    then parse_exited fields
    else if kind == codes "SIGNALED"
    then parse_signaled fields
    else if kind == codes "SPAWN"
    then parse_spawn fields
    else err unknown_kind

unfoldable pub parse_tokens : List Str → Result WireEvent
unfolding parse_kind fields_of
parse_tokens [] = err empty_line
parse_tokens (kind ∷ tokens) = do fields ← fields_of tokens; parse_kind kind fields

unfoldable pub parse_line : Str → Result WireEvent
unfolding parse_tokens split
parse_line line = parse_tokens (split line)
