-- ===== src/Wire/Tracer/Enter.antt =====
-- `parse_line` on the collector's ENTER lines.
use fuddy_duddy.Prelude.{
  ℕ, ◌*◌, ◌<◌, ◌≡◌, refl, ap, ◌∙◌, Bool, true, false, Option, none, some, List, [], ◌∷◌, ◌++◌, All,
  All-append, ◌==◌, nat_eq, list_eq, list_beq, arith, if_intro, if_cases, length, leb, ◌-◌, ◌/◌,
  ◌%◌,
}
use fuddy_duddy.Int.{ℤ, pos}
use fuddy_duddy.Text.{Str, codes, print_hex}
use fuddy_duddy.Text.Numeral.RoundTrip.{IsPlain, digits-IsPlain, parse_int-print_hex}
use fuddy_duddy.Dict.{Dict, lookup, insert}
use fuddy_duddy.Wire.{WireEvent, ok, enter}
use fuddy_duddy.Wire.Fields.{int}
use fuddy_duddy.Wire.Parse.{parse_kind, parse_line}
use fuddy_duddy.Wire.Tracer.{enter_fields}
use fuddy_duddy.Wire.Tracer.Lines.{IsVisible, insert_all}
use fuddy_duddy.Text.{digit_char}
use fuddy_duddy.Text.Numeral.{parse_int, parse_ℕ, scan, skip_prefix}
use fuddy_duddy.Text.Numeral.RoundTrip.{digit_char-IsPlain}
use fuddy_duddy.Text.Split.{split_on}
use fuddy_duddy.Text.Utf8
use fuddy_duddy.Wire.{Args, to_list}
use fuddy_duddy.Wire.Fields.{hex}
use fuddy_duddy.Wire.Parse.{hexes}
use fuddy_duddy.Wire.Tracer.{is_special, escape, args_text, enter_line, string_field}
use fuddy_duddy.Wire.Tracer.Lines.{split_by_word, split_by_last}
use fuddy_duddy.Wire.Tracer.Escaping.{IsByte}
use fuddy_duddy.Wire.Tracer.Kept.{kept, kept_all, unescape-escape-kept}
use fuddy_duddy.Wire.Tracer.RoundTrip.{
  Plain-IsVisible, IsField, number, parse_line-line, int-print_ℤ,
}

print_hex-IsPlain : (n : ℕ) → All IsPlain (print_hex n)
unfolding print_hex
print_hex-IsPlain n = digits-IsPlain 16 (omega arith) (omega arith) n n [] tt

no_comma : (s : Str) → All IsPlain s → All (λ c. (c == b',') ≡ false) s
no_comma [] _ = tt
no_comma (c ∷ s) (h, hs) = (ground arith, no_comma s hs)

hex-print_hex : (n : ℕ) → hex (print_hex n) ≡ ok (pos n)
unfolding hex
hex-print_hex n = rw (parse_int-print_hex n)

split_on-print_hex :
    (n : ℕ) (s : Str) → split_on b',' (print_hex n ++ b',' ∷ s) ≡ print_hex n ∷ split_on b',' s
unfolding split_on
split_on-print_hex n s =
    split_by_word (λ c. c == b',') (print_hex n) s b',' (no_comma _ (print_hex-IsPlain n)) refl

split_on-last : (n : ℕ) → split_on b',' (print_hex n) ≡ print_hex n ∷ []
unfolding split_on
split_on-last n = split_by_last (λ c. c == b',') (print_hex n) (no_comma _ (print_hex-IsPlain n))

abbrev pub args_of : ℕ → ℕ → ℕ → ℕ → ℕ → ℕ → Args
args_of a b c d e f = record {
  a0 = pos a;
  a1 = pos b;
  a2 = pos c;
  a3 = pos d;
  a4 = pos e;
  a5 = pos f;
}

-- The six arguments read back.
args_read :
    (a b c d e f : ℕ)
    → hexes (split_on b',' (args_text a b c d e f)) ≡ ok (to_list (args_of a b c d e f))
unfolding args_text hexes
args_read a b c d e f =
    rw
      (
        split_on-print_hex a,
        split_on-print_hex b,
        split_on-print_hex c,
        split_on-print_hex d,
        split_on-print_hex e,
        split_on-last f,
      )
      (rw (
        hex-print_hex a,
        hex-print_hex b,
        hex-print_hex c,
        hex-print_hex d,
        hex-print_hex e,
        hex-print_hex f,
      ))

joined : (n : ℕ) (s : Str) → All IsVisible s → All IsVisible (print_hex n ++ b',' ∷ s)
joined n s h =
    All-append IsVisible (print_hex n) (44 ∷ s) (Plain-IsVisible _ (print_hex-IsPlain n))
      (omega arith, h)

args-IsVisible : (a b c d e f : ℕ) → All IsVisible (args_text a b c d e f)
unfolding args_text
args-IsVisible a b c d e f =
    joined a _
      (joined b _ (joined c _ (joined d _ (joined e _ (Plain-IsVisible _ (print_hex-IsPlain f))))))

digit-IsVisible : (d : ℕ) → d < 16 → IsVisible (digit_char d)
digit-IsVisible d h = let plain = digit_char-IsPlain d h in omega arith

special_lem : (c : ℕ) → is_special c ≡ false → IsVisible c
unfolding is_special
special_lem c h = ground arith

escape-IsVisible : (room : ℕ) (bs : List ℕ) → All IsByte bs → All IsVisible (escape room bs)
unfolding escape
escape-IsVisible room [] _ = tt
escape-IsVisible room (c ∷ bs) (h, hs) =
    if_cases (All IsVisible) (is_special c) _ _
      (λ _. if_intro (All IsVisible) (leb room 3) _ _ tt (
        omega arith,
        (
          digit-IsVisible (c / 16) (omega arith),
          (digit-IsVisible (c % 16) (omega arith), escape-IsVisible (room - 3) bs hs),
        ),
      ))
      (λ plain.
        if_intro (All IsVisible) (leb room 1) _ _ tt
          (special_lem c plain, escape-IsVisible (room - 1) bs hs))

-- The bytes of the string, if any, are bytes.
abbrev pub HasBytes : Option (Bool × List ℕ) → Type 0
HasBytes none = Unit
HasBytes (some (_, bs)) = All IsByte bs

-- The bytes are bytes, and their escapes fit the buffer of the collector.
abbrev pub Fits : Option (Bool × List ℕ) → Type 0
Fits none = Unit
Fits (some (_, bs)) = All IsByte bs × (3 * length bs < 6144)

Fits-HasBytes : (string : Option (Bool × List ℕ)) → Fits string → HasBytes string
Fits-HasBytes none _ = tt
Fits-HasBytes (some (_, bs)) (h, _) = h

-- The part of the string that the buffer of the collector holds.
abbrev pub cut : Option (Bool × List ℕ) → Option (Bool × List ℕ)
cut none = none
cut (some (argument, bs)) = some (argument, kept 6144 bs)

cut_fitting : (string : Option (Bool × List ℕ)) → Fits string → cut string ≡ string
cut_fitting none _ = refl
cut_fitting (some (argument, bs)) (_, fits) = ap (λ l. some (argument, l)) (kept_all 6144 bs fits)

-- The strings of the event: `{1: …}`, `{0: …}` or `{}`.
abbrev pub strings_of : Option (Bool × List ℕ) → Dict ℤ Str
strings_of none = []
strings_of (some (true, bs)) = (pos 1, Utf8.decode bs) ∷ []
strings_of (some (false, bs)) = (pos 0, Utf8.decode bs) ∷ []

abbrev pub read_event : ℤ → ℕ → ℕ → Args → Option (Bool × List ℕ) → WireEvent
read_event pid ts nr args string =
    enter (record { pid = pid; ts = pos ts; nr = pos nr; args = args; strings = strings_of string })

module _ (pid : ℤ) (ts nr a b c d e f : ℕ) where
  abbrev raw : Str
  raw = args_text a b c d e f

  string_visible :
      (string : Option (Bool × List ℕ)) → HasBytes string → All IsField (string_field string)
  string_visible none _ = tt
  string_visible (some (true, bs)) h = ((omega arith, escape-IsVisible 6144 bs h), tt)
  string_visible (some (false, bs)) h = ((omega arith, escape-IsVisible 6144 bs h), tt)

  fields_visible :
      (string : Option (Bool × List ℕ))
      → HasBytes string
      → All IsField (enter_fields pid ts nr raw string)
  fields_visible string h = (
    number (codes "pid") pid (omega arith),
    (
      number (codes "ts") (pos ts) (omega arith),
      (
        number (codes "nr") (pos nr) (omega arith),
        ((omega arith, args-IsVisible a b c d e f), string_visible string h),
      ),
    ),
  )

  read_fields_back :
      (string : Option (Bool × List ℕ))
      → HasBytes string
      → parse_kind (codes "ENTER") (insert_all [] (enter_fields pid ts nr raw string))
        ≡ ok (read_event pid ts nr (args_of a b c d e f) (cut string))
  unfolding parse_kind insert lookup list_beq parse_int parse_ℕ scan skip_prefix int
  read_fields_back none _ =
      rw (args_read a b c d e f) (rw (int-print_ℤ pid, int-print_ℤ (pos ts), int-print_ℤ (pos nr)))
  read_fields_back (some (true, bs)) h =
      rw (args_read a b c d e f, unescape-escape-kept 6144 bs h)
        (rw (int-print_ℤ pid, int-print_ℤ (pos ts), int-print_ℤ (pos nr)))
  read_fields_back (some (false, bs)) h =
      rw (args_read a b c d e f, unescape-escape-kept 6144 bs h)
        (rw (int-print_ℤ pid, int-print_ℤ (pos ts), int-print_ℤ (pos nr)))

  -- The ENTER line that the collector writes for a pid, a time, a syscall number, six arguments
  -- and at most one string of bytes parses to exactly these, with what the collector's buffer
  -- holds of the string.
  pub parse-any_enter_line :
      (string : Option (Bool × List ℕ))
      → HasBytes string
      → parse_line (enter_line pid ts nr (args_text a b c d e f) string)
        ≡ ok (read_event pid ts nr (args_of a b c d e f) (cut string))
  unfolding enter_line
  parse-any_enter_line string h =
      parse_line-line (codes "ENTER") (enter_fields pid ts nr raw string) (omega arith, cc)
        (fields_visible string h)
      ∙ read_fields_back string h

  -- The same, where the buffer holds the whole string: three times the number of its bytes is less
  -- than 6144.
  pub parse-enter_line :
      (string : Option (Bool × List ℕ))
      → Fits string
      → parse_line (enter_line pid ts nr (args_text a b c d e f) string)
        ≡ ok (read_event pid ts nr (args_of a b c d e f) string)
  parse-enter_line string h =
      parse-any_enter_line string (Fits-HasBytes string h)
      ∙ ap (λ str. ok (read_event pid ts nr (args_of a b c d e f) str)) (cut_fitting string h)
