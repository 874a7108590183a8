-- ===== src/Wire/Tracer/RoundTrip.antt =====
-- `parse_line` on the collector's lines other than ENTER.
use fuddy_duddy.Prelude.{
  ℕ, suc, ◌≤◌, ◌≡◌, ◌≢◌, refl, ◌∙◌, ap, Bool, true, false, List, [], ◌∷◌, map, All, All-append,
  ◌==◌, nat_eq, list_eq, list_beq, if◌then◌else◌, arith,
}
use fuddy_duddy.Int.{ℤ, pos, negsuc}
use fuddy_duddy.Text.{Str, codes, print_ℕ, print_ℤ}
use fuddy_duddy.Text.Numeral.RoundTrip.{IsPlain, digits-IsPlain, parse_int-print_ℤ}
use fuddy_duddy.Dict.{lookup, insert}
use fuddy_duddy.Wire.{ok, exit, exited, signaled, spawn}
use fuddy_duddy.Wire.Fields.{fields_of, int}
use fuddy_duddy.Wire.Parse.{parse_kind, parse_tokens, parse_line}
use fuddy_duddy.Wire.Tracer.{
  token, line, exit_fields, exited_fields, signaled_fields, spawn_fields, exit_line, exited_line,
  signaled_line, spawn_line,
}
use fuddy_duddy.Wire.Tracer.Lines.{IsVisible, IsWord, split-join, insert_all, read_fields_tokens}

pub Plain-IsVisible : (s : Str) → All IsPlain s → All IsVisible s
Plain-IsVisible [] _ = tt
Plain-IsVisible (c ∷ s) (h, hs) = (omega arith, Plain-IsVisible s hs)

pub print_ℤ-IsVisible : (n : ℤ) → All IsVisible (print_ℤ n)
unfolding print_ℤ print_ℕ
print_ℤ-IsVisible (pos n) =
    Plain-IsVisible _ (digits-IsPlain 10 (omega arith) (omega arith) n n [] tt)
print_ℤ-IsVisible (negsuc n) = (
  omega arith,
  Plain-IsVisible _ (digits-IsPlain 10 (omega arith) (omega arith) (suc n) (suc n) [] tt),
)

token-IsWord : (k v : Str) → All IsVisible k → All IsVisible v → IsWord (token (k, v))
token-IsWord [] v _ hv = ((omega arith, hv), cc)
token-IsWord (c ∷ k) v (h, hk) hv = ((h, All-append IsVisible k (61 ∷ v) hk (omega arith, hv)), cc)

abbrev pub IsKeyChar : ℕ → Type 0
IsKeyChar c = (33 ≤ c) × (c ≤ 126) × (c ≢ b'=')

-- A field that the collector writes: a key without `=`, and a value.
abbrev pub IsField : Str × Str → Type 0
IsField kv = All IsKeyChar kv.0 × All IsVisible kv.1

key-IsVisible : (k : Str) → All IsKeyChar k → All IsVisible k
key-IsVisible [] _ = tt
key-IsVisible (c ∷ k) (h, hs) = (omega arith, key-IsVisible k hs)

key_plain : (k : Str) → All IsKeyChar k → All (λ c. (c == b'=') ≡ false) k
key_plain [] _ = tt
key_plain (c ∷ k) (h, hs) = (ground arith, key_plain k hs)

words : (kvs : List (Str × Str)) → All IsField kvs → All IsWord (map token kvs)
words [] _ = tt
words ((k, v) ∷ kvs) ((hk, hv), hs) = (token-IsWord k v (key-IsVisible k hk) hv, words kvs hs)

keys :
    (kvs : List (Str × Str)) → All IsField kvs → All (λ kv. All (λ c. (c == b'=') ≡ false) kv.0) kvs
keys [] _ = tt
keys ((k, v) ∷ kvs) ((hk, _), hs) = (key_plain k hk, keys kvs hs)

pub parse_line-line :
    (kind : Str) (kvs : List (Str × Str))
    → IsWord kind
    → All IsField kvs
    → parse_line (line kind kvs) ≡ parse_kind kind (insert_all [] kvs)
unfolding parse_line parse_tokens fields_of
parse_line-line kind kvs word fields =
    ap parse_tokens (split-join (kind ∷ map token kvs) (word, words kvs fields))
    ∙ rw (read_fields_tokens [] kvs (keys kvs fields))

-- The value of a field that holds a printed number.
pub int-print_ℤ : (n : ℤ) → int (print_ℤ n) ≡ ok n
unfolding int
int-print_ℤ n = rw (parse_int-print_ℤ n)

bit-IsVisible : (failed : Bool) → All IsVisible (if failed then codes "1" else codes "0")
bit-IsVisible true = omega arith
bit-IsVisible false = omega arith

bit_read : (failed : Bool) → ((if failed then codes "1" else codes "0") == codes "1") ≡ failed
unfolding list_beq
bit_read true = refl
bit_read false = refl

-- The fields that every line but ENTER has.
pub number : (k : Str) (n : ℤ) → All IsKeyChar k → IsField (k, print_ℤ n)
number k n h = (h, print_ℤ-IsVisible n)

-- The EXIT line that the collector writes for a pid, a time, a result and an error flag parses to
-- exactly these.
pub parse-exit_line :
    (pid : ℤ) (ts : ℕ) (ret : ℤ) (failed : Bool)
    → parse_line (exit_line pid ts ret failed)
      ≡ ok (exit (record { pid = pid; ts = pos ts; ret = ret; err = failed }))
unfolding exit_line parse_kind insert lookup list_beq
parse-exit_line pid ts ret failed =
    parse_line-line (codes "EXIT") (exit_fields pid ts ret failed) (omega arith, cc)
      (
        number (codes "pid") pid (omega arith),
        (
          number (codes "ts") (pos ts) (omega arith),
          (number (codes "ret") ret (omega arith), ((omega arith, bit-IsVisible failed), tt)),
        ),
      )
    ∙ rw (int-print_ℤ pid, int-print_ℤ (pos ts), int-print_ℤ ret, bit_read failed)

-- The EXITED line that the collector writes for a pid, a time and an exit code parses to exactly
-- these.
pub parse-exited_line :
    (pid : ℤ) (ts : ℕ) (code : ℤ)
    → parse_line (exited_line pid ts code)
      ≡ ok (exited (record { pid = pid; ts = pos ts; code = code }))
unfolding exited_line parse_kind insert lookup list_beq
parse-exited_line pid ts code =
    parse_line-line (codes "EXITED") (exited_fields pid ts code) (omega arith, cc)
      (
        number (codes "pid") pid (omega arith),
        (
          number (codes "ts") (pos ts) (omega arith),
          (number (codes "code") code (omega arith), tt),
        ),
      )
    ∙ rw (int-print_ℤ pid, int-print_ℤ (pos ts), int-print_ℤ code)

-- The SIGNALED line that the collector writes for a pid, a time and a signal parses to exactly
-- these.
pub parse-signaled_line :
    (pid : ℤ) (ts : ℕ) (sig : ℤ)
    → parse_line (signaled_line pid ts sig)
      ≡ ok (signaled (record { pid = pid; ts = pos ts; sig = sig }))
unfolding signaled_line parse_kind insert lookup list_beq
parse-signaled_line pid ts sig =
    parse_line-line (codes "SIGNALED") (signaled_fields pid ts sig) (omega arith, cc)
      (
        number (codes "pid") pid (omega arith),
        (number (codes "ts") (pos ts) (omega arith), (number (codes "sig") sig (omega arith), tt)),
      )
    ∙ rw (int-print_ℤ pid, int-print_ℤ (pos ts), int-print_ℤ sig)

-- The SPAWN line that the collector writes for a pid, a time and a child parses to exactly these.
pub parse-spawn_line :
    (pid : ℤ) (ts : ℕ) (child : ℤ)
    → parse_line (spawn_line pid ts child)
      ≡ ok (spawn (record { pid = pid; ts = pos ts; child = child }))
unfolding spawn_line parse_kind insert lookup list_beq
parse-spawn_line pid ts child =
    parse_line-line (codes "SPAWN") (spawn_fields pid ts child) (omega arith, cc)
      (
        number (codes "pid") pid (omega arith),
        (
          number (codes "ts") (pos ts) (omega arith),
          (number (codes "child") child (omega arith), tt),
        ),
      )
    ∙ rw (int-print_ℤ pid, int-print_ℤ (pos ts), int-print_ℤ child)

-- The EXIT, EXITED, SIGNALED and SPAWN lines that the collector writes for a pid, a time, and a
-- result and an error flag, an exit code, a signal or a child, parse to exactly these.
pub parse-short_lines :
    (pid : ℤ) (ts : ℕ) (ret : ℤ) (failed : Bool) (code sig child : ℤ)
    → (parse_line (exit_line pid ts ret failed)
        ≡ ok (exit (record { pid = pid; ts = pos ts; ret = ret; err = failed })))
      × (parse_line (exited_line pid ts code)
          ≡ ok (exited (record { pid = pid; ts = pos ts; code = code })))
      × (parse_line (signaled_line pid ts sig)
          ≡ ok (signaled (record { pid = pid; ts = pos ts; sig = sig })))
      × (parse_line (spawn_line pid ts child)
          ≡ ok (spawn (record { pid = pid; ts = pos ts; child = child })))
parse-short_lines pid ts ret failed code sig child = (
  parse-exit_line pid ts ret failed,
  parse-exited_line pid ts code,
  parse-signaled_line pid ts sig,
  parse-spawn_line pid ts child,
)
