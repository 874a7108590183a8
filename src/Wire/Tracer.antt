-- ===== src/Wire/Tracer.antt =====
-- What the collector writes on a line (collector/tracer.c): the format strings of its `fprintf` calls,
-- and the escaping loop of `read_child_string`. A number printed with `%d`, `%llu` or `%lld` is printed
-- as Python prints it.
pub mod Escaping
pub mod Kept
pub mod Lines
pub mod RoundTrip
pub mod Enter
use fuddy_duddy.Prelude.{
  ℕ, ◌-◌, ◌/◌, ◌%◌, List, [], ◌∷◌, ◌++◌, map, Bool, ◌||◌, Option, none, some, ltb, leb, ◌==◌,
  nat_eq, if◌then◌else◌,
}
use fuddy_duddy.Int.{ℤ, pos}
use fuddy_duddy.Text.{Str, codes, digit_char, print_ℕ, print_ℤ, print_hex}

-- c < 0x21 || c > 0x7e || c == '%'
unfoldable pub is_special : ℕ → Bool
is_special c = ltb c 0x21 || ltb 0x7e c || c == b'%'

-- The escaping loop; `room` is `out_cap - o`, and the loop breaks where the room does not suffice.
unfoldable pub escape : ℕ → List ℕ → Str
unfolding is_special
escape room [] = []
escape room (c ∷ bs) =
    let quoted = escape (room - 3) bs in
    let plain = escape (room - 1) bs in
    if is_special c
    then (if leb room 3 then [] else b'%' ∷ digit_char (c / 16) ∷ digit_char (c % 16) ∷ quoted)
    else if leb room 1
    then []
    else c ∷ plain

-- key=value
abbrev pub token : Str × Str → Str
token (key, value) = key ++ b'=' ∷ value

-- The tokens of a line, with a space between two.
unfoldable pub join : List Str → Str
join [] = []
join (t ∷ []) = t
join (t ∷ u ∷ ts) = t ++ b' ' ∷ join (u ∷ ts)

abbrev pub line : Str → List (Str × Str) → Str
line kind fields = join (kind ∷ map token fields)

abbrev pub exit_fields : ℤ → ℕ → ℤ → Bool → List (Str × Str)
exit_fields pid ts ret failed =
    (codes "pid", print_ℤ pid)
    ∷ (codes "ts", print_ℤ (pos ts))
    ∷ (codes "ret", print_ℤ ret)
    ∷ (codes "err", if failed then codes "1" else codes "0")
    ∷ []

-- "EXIT pid=%d ts=%llu ret=%lld err=%d\n"
unfoldable pub exit_line : ℤ → ℕ → ℤ → Bool → Str
exit_line pid ts ret failed = line (codes "EXIT") (exit_fields pid ts ret failed)

abbrev pub exited_fields : ℤ → ℕ → ℤ → List (Str × Str)
exited_fields pid ts code =
    (codes "pid", print_ℤ pid) ∷ (codes "ts", print_ℤ (pos ts)) ∷ (codes "code", print_ℤ code) ∷ []

-- "EXITED pid=%d ts=%llu code=%d\n"
unfoldable pub exited_line : ℤ → ℕ → ℤ → Str
exited_line pid ts code = line (codes "EXITED") (exited_fields pid ts code)

abbrev pub signaled_fields : ℤ → ℕ → ℤ → List (Str × Str)
signaled_fields pid ts sig =
    (codes "pid", print_ℤ pid) ∷ (codes "ts", print_ℤ (pos ts)) ∷ (codes "sig", print_ℤ sig) ∷ []

-- "SIGNALED pid=%d ts=%llu sig=%d\n"
unfoldable pub signaled_line : ℤ → ℕ → ℤ → Str
signaled_line pid ts sig = line (codes "SIGNALED") (signaled_fields pid ts sig)

abbrev pub spawn_fields : ℤ → ℕ → ℤ → List (Str × Str)
spawn_fields pid ts child =
    (codes "pid", print_ℤ pid)
    ∷ (codes "ts", print_ℤ (pos ts))
    ∷ (codes "child", print_ℤ child)
    ∷ []

-- "SPAWN pid=%d ts=%llu child=%d\n"
unfoldable pub spawn_line : ℤ → ℕ → ℤ → Str
spawn_line pid ts child = line (codes "SPAWN") (spawn_fields pid ts child)

-- %llx,%llx,%llx,%llx,%llx,%llx
unfoldable pub args_text : ℕ → ℕ → ℕ → ℕ → ℕ → ℕ → Str
args_text a b c d e f =
    print_hex a
    ++ b','
      ∷ (print_hex b
          ++ b','
            ∷ (print_hex c ++ b',' ∷ (print_hex d ++ b',' ∷ (print_hex e ++ b',' ∷ print_hex f))))

-- The string that `handle_syscall_stop` attaches, if any: " str%d=%s".
abbrev pub string_field : Option (Bool × List ℕ) → List (Str × Str)
string_field none = []
string_field (some (Bool.true, bs)) = (codes "str1", escape 6144 bs) ∷ []
string_field (some (Bool.false, bs)) = (codes "str0", escape 6144 bs) ∷ []

abbrev pub enter_fields : ℤ → ℕ → ℕ → Str → Option (Bool × List ℕ) → List (Str × Str)
enter_fields pid ts nr args string =
    (codes "pid", print_ℤ pid)
    ∷ (codes "ts", print_ℤ (pos ts))
    ∷ (codes "nr", print_ℤ (pos nr))
    ∷ (codes "args", args)
    ∷ string_field string

-- "ENTER pid=%d ts=%llu nr=%llu args=…", and the string of argument 1 (`true`) or 0 (`false`).
unfoldable pub enter_line : ℤ → ℕ → ℕ → Str → Option (Bool × List ℕ) → Str
unfolding escape
enter_line pid ts nr args string = line (codes "ENTER") (enter_fields pid ts nr args string)
