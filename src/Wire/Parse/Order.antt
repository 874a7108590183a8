-- ===== src/Wire/Parse/Order.antt =====
-- The order of the fields of a line.
use mathlib.Core.Path.{fun_ext}
use fuddy_duddy.Prelude.{
  ◌≡◌, refl, sym, ◌∙◌, ap, ◌⊎◌, inl, inr, true, false, Bool-cases, none, some, List, [], ◌∷◌, All,
  ◌==◌, list_eq, arith, list_beq_iff, if◌then◌else◌,
}
use fuddy_duddy.Int.{ℤ, int_eq}
use fuddy_duddy.Text.{Str, codes}
use fuddy_duddy.Dict.{Dict, lookup, insert}
use fuddy_duddy.Wire.{Result, ◌>>=◌}
use fuddy_duddy.Wire.Fields.{field, int, int_field}
use fuddy_duddy.Wire.Unescape.{unescape}
use fuddy_duddy.Wire.Parse.{
  read_strings, parse_enter, parse_exit, parse_exited, parse_signaled, parse_spawn, parse_kind,
  parse_line,
}
use fuddy_duddy.Wire.Tracer.{line}
use fuddy_duddy.Wire.Tracer.Lines.{IsWord, insert_all}
use fuddy_duddy.Wire.Tracer.RoundTrip.{IsField, parse_line-line}
use fuddy_duddy.Text.Split.{strip_prefix}

-- A key that does not begin with `str`.
abbrev pub IsNumberKey : Str → Type 0
IsNumberKey key = strip_prefix (codes "str") key ≡ none

-- Fields in another order: neighbours with different keys change places, of which at most one is a string.
pub data Reordered : List (Str × Str) → List (Str × Str) → Type 0 where
  same : {kvs : List (Str × Str)} → Reordered kvs kvs
  keeps :
      {kvs lvs : List (Str × Str)} (kv : Str × Str)
      → Reordered kvs lvs
      → Reordered (kv ∷ kvs) (kv ∷ lvs)
  swaps :
      {kvs : List (Str × Str)} (k v l u : Str)
      → (k == l) ≡ false
      → IsNumberKey k ⊎ IsNumberKey l
      → Reordered ((k, v) ∷ (l, u) ∷ kvs) ((l, u) ∷ (k, v) ∷ kvs)
  follows :
      {kvs lvs mvs : List (Str × Str)} → Reordered kvs lvs → Reordered lvs mvs → Reordered kvs mvs

different : (k l : Str) → (k == l) ≡ false → (l == k) ≡ false
different k l h = ground (arith, list_beq_iff k l, list_beq_iff l k)

lookup_same : (j : Str) (d e : Dict Str Str) → Reordered d e → lookup j d ≡ lookup j e
unfolding lookup
lookup_same j _ _ same = refl
lookup_same j _ _ (keeps {kvs} {lvs} (k, v) r) =
    ap (λ o. if k == j then some v else o) (lookup_same j kvs lvs r)
lookup_same j _ _ (swaps {kvs} k v l u h _) =
    ground (arith, list_beq_iff k j, list_beq_iff l j, list_beq_iff k l)
lookup_same j d e (follows {kvs} {lvs} {mvs} r r') =
    lookup_same j kvs lvs r ∙ lookup_same j lvs mvs r'

skip :
    (k v : Str) (kvs : Dict Str Str) (s : Dict ℤ Str)
    → IsNumberKey k
    → read_strings s ((k, v) ∷ kvs) ≡ read_strings s kvs
unfolding read_strings
skip k v kvs s number =
    ap
      (λ o. elim o as (λ _. Result (Dict ℤ Str)) [
        | none ↦ read_strings s kvs
        | some index ↦ int index >>= λ n. unescape v >>= λ t. read_strings (insert n t s) kvs
      ])
      number

behind_field :
    (k v : Str) (kvs lvs : Dict Str Str)
    → ((s : Dict ℤ Str) → read_strings s kvs ≡ read_strings s lvs)
    → (s : Dict ℤ Str) → read_strings s ((k, v) ∷ kvs) ≡ read_strings s ((k, v) ∷ lvs)
unfolding read_strings
behind_field k v kvs lvs h s =
    ap
      (λ (f : Dict ℤ Str → Result (Dict ℤ Str)).
        elim (strip_prefix (codes "str") k) as (λ _. Result (Dict ℤ Str)) [
          | none ↦ f s
          | some index ↦ int index >>= λ n. unescape v >>= λ t. f (insert n t s)
        ])
      (fun_ext h)

strings_same :
    (d e : Dict Str Str) → Reordered d e → (s : Dict ℤ Str) → read_strings s d ≡ read_strings s e
strings_same _ _ same s = refl
strings_same _ _ (keeps {kvs} {lvs} (k, v) r) s =
    behind_field k v kvs lvs (strings_same kvs lvs r) s
strings_same _ _ (swaps {kvs} k v l u h (inl number)) s =
    skip k v ((l, u) ∷ kvs) s number
    ∙ behind_field l u kvs ((k, v) ∷ kvs) (λ t. sym (skip k v kvs t number)) s
strings_same _ _ (swaps {kvs} k v l u h (inr number)) s =
    behind_field k v ((l, u) ∷ kvs) kvs (λ t. skip l u kvs t number) s
    ∙ sym (skip l u ((k, v) ∷ kvs) s number)
strings_same d e (follows {kvs} {lvs} {mvs} r r') s =
    strings_same kvs lvs r s ∙ strings_same lvs mvs r' s

module _ (d e : Dict Str Str) (looks : (j : Str) → lookup j d ≡ lookup j e)
    (reads : (s : Dict ℤ Str) → read_strings s d ≡ read_strings s e) where
  field_same : (j : Str) → field d j ≡ field e j
  unfolding field
  field_same j = rw (looks j) refl

  int_field_same : (j : Str) → int_field d j ≡ int_field e j
  unfolding int_field
  int_field_same j = rw (field_same j) refl

  exit_same : parse_exit d ≡ parse_exit e
  unfolding parse_exit
  exit_same =
      rw
        (
          int_field_same (codes "pid"),
          int_field_same (codes "ts"),
          int_field_same (codes "ret"),
          field_same (codes "err"),
        )
        refl

  exited_same : parse_exited d ≡ parse_exited e
  unfolding parse_exited
  exited_same =
      rw (int_field_same (codes "pid"), int_field_same (codes "ts"), int_field_same (codes "code"))
        refl

  enter_same : parse_enter d ≡ parse_enter e
  unfolding parse_enter
  enter_same =
      rw
        (
          field_same (codes "args"),
          reads [],
          int_field_same (codes "pid"),
          int_field_same (codes "ts"),
          int_field_same (codes "nr"),
        )
        refl

  signaled_same : parse_signaled d ≡ parse_signaled e
  unfolding parse_signaled
  signaled_same =
      rw (int_field_same (codes "pid"), int_field_same (codes "ts"), int_field_same (codes "sig"))
        refl

  spawn_same : parse_spawn d ≡ parse_spawn e
  unfolding parse_spawn
  spawn_same =
      rw (int_field_same (codes "pid"), int_field_same (codes "ts"), int_field_same (codes "child"))
        refl

  kind_same : (kind : Str) → parse_kind kind d ≡ parse_kind kind e
  unfolding parse_kind
  kind_same kind = rw (enter_same, exit_same, exited_same, signaled_same, spawn_same) refl

apart : (k l j : Str) → (k == j) ≡ true → (k == l) ≡ false → (l == j) ≡ false
apart k l j here h = ground (arith, list_beq_iff k j, list_beq_iff k l, list_beq_iff l j)

-- A write to a dictionary, and then writes from the left.
insert_same :
    (j w : Str) (d e : Dict Str Str) → Reordered d e → Reordered (insert j w d) (insert j w e)
unfolding insert
insert_same j w _ _ same = same
insert_same j w _ _ (keeps {kvs} {lvs} (k, v) r) = elim (Bool-cases (k == j)) [
  | inl here ↦ rw here (keeps (k, w) r)
  | inr there ↦ rw there (keeps (k, v) (insert_same j w kvs lvs r))
]
insert_same j w _ _ (swaps {kvs} k v l u h one) = elim (Bool-cases (k == j)) [
  | inl here ↦ rw (here, apart k l j here h) (swaps k w l u h one)
  | inr there ↦ elim (Bool-cases (l == j)) [
    | inl here ↦ rw (there, here) (swaps k v l w h one)
    | inr gone ↦ rw (there, gone) (swaps k v l u h one)
  ]
]
insert_same j w d e (follows {kvs} {lvs} {mvs} r r') =
    follows (insert_same j w kvs lvs r) (insert_same j w lvs mvs r')

insert_swaps :
    (k v l u : Str) (d : Dict Str Str)
    → (k == l) ≡ false
    → IsNumberKey k ⊎ IsNumberKey l
    → Reordered (insert l u (insert k v d)) (insert k v (insert l u d))
unfolding insert
insert_swaps k v l u [] h one = rw (h, different k l h) (swaps k v l u h one)
insert_swaps k v l u ((j, w) ∷ d) h one = elim (Bool-cases (j == k)) [
  | inl here ↦
      let other : (j == l) ≡ false =
        ground (arith, list_beq_iff j k, list_beq_iff k l, list_beq_iff j l) in
      rw (here, other) (rw here same)
  | inr there ↦ elim (Bool-cases (j == l)) [
    | inl here ↦ rw (there, here) (rw there same)
    | inr gone ↦ rw (there, gone) (rw there (keeps (j, w) (insert_swaps k v l u d h one)))
  ]
]

insert_all_same :
    (kvs : List (Str × Str)) (d e : Dict Str Str)
    → Reordered d e
    → Reordered (insert_all d kvs) (insert_all e kvs)
insert_all_same [] d e r = r
insert_all_same ((k, v) ∷ kvs) d e r =
    insert_all_same kvs (insert k v d) (insert k v e) (insert_same k v d e r)

insert_all-Reordered :
    (d : Dict Str Str) (kvs lvs : List (Str × Str))
    → Reordered kvs lvs
    → Reordered (insert_all d kvs) (insert_all d lvs)
insert_all-Reordered d _ _ same = same
insert_all-Reordered d _ _ (keeps {kvs} {lvs} (k, v) r) =
    insert_all-Reordered (insert k v d) kvs lvs r
insert_all-Reordered d _ _ (swaps {kvs} k v l u h one) =
    insert_all_same kvs _ _ (insert_swaps k v l u d h one)
insert_all-Reordered d _ _ (follows {kvs} {lvs} {mvs} r r') =
    follows (insert_all-Reordered d kvs lvs r) (insert_all-Reordered d lvs mvs r')

fields-Reordered :
    (kvs lvs : List (Str × Str)) → Reordered kvs lvs → All IsField kvs → All IsField lvs
fields-Reordered _ _ same h = h
fields-Reordered _ _ (keeps {kvs} {lvs} kv r) (h, hs) = (h, fields-Reordered kvs lvs r hs)
fields-Reordered _ _ (swaps k v l u _ _) (h, (g, hs)) = (g, (h, hs))
fields-Reordered _ _ (follows {kvs} {lvs} {mvs} r r') h =
    fields-Reordered lvs mvs r' (fields-Reordered kvs lvs r h)

-- The order of the fields of a line does not matter: for a kind word of visible characters, and
-- fields with keys of visible characters other than = and with values of visible characters, the
-- line of the kind with the fields, and that with the fields in another order, parse to the same
-- event or the same error. Fields with equal keys keep their order, and so do string fields among
-- each other.
pub parse_line-Reordered :
    (kind : Str) (kvs lvs : List (Str × Str))
    → IsWord kind
    → All IsField kvs
    → Reordered kvs lvs
    → parse_line (line kind kvs) ≡ parse_line (line kind lvs)
parse_line-Reordered kind kvs lvs word fields r =
    let dicts = insert_all-Reordered [] kvs lvs r in
    parse_line-line kind kvs word fields
    ∙ kind_same (insert_all [] kvs) (insert_all [] lvs)
        (λ j. lookup_same j (insert_all [] kvs) (insert_all [] lvs) dicts)
        (strings_same (insert_all [] kvs) (insert_all [] lvs) dicts) kind
    ∙ sym (parse_line-line kind lvs word (fields-Reordered kvs lvs r fields))
