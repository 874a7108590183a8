-- ===== src/Wire/Tracer/Lines.antt =====
-- The tokens of a line, and the keys and values of tokens.
use fuddy_duddy.Prelude.{
  ℕ, ◌≤◌, ◌≡◌, ◌≢◌, refl, ◌∙◌, ap, Bool, true, false, some, List, [], ◌∷◌, ◌++◌, map, All, ◌==◌,
  nat_eq, list_eq, arith,
}
use fuddy_duddy.Text.{Str}
use fuddy_duddy.Text.Split.{is_space, begin, split_by, non_empty, split, partition}
use fuddy_duddy.Dict.{Dict, insert}
use fuddy_duddy.Wire.{ok}
use fuddy_duddy.Wire.Fields.{read_fields}
use fuddy_duddy.Wire.Tracer.{token, join}

-- A character that the collector writes inside a token.
abbrev pub IsVisible : ℕ → Type 0
IsVisible c = (33 ≤ c) × (c ≤ 126)

abbrev pub IsWord : Str → Type 0
IsWord t = All IsVisible t × (t ≢ [])

space_false : (c : ℕ) → IsVisible c → is_space c ≡ false
unfolding is_space
space_false c h = ground arith

-- The parts around a separator that the first part does not hold.
module _ (sep : ℕ → Bool) where
  begin_word : (c : ℕ) (t : Str) (rest : List Str) → begin c (t ∷ rest) ≡ (c ∷ t) ∷ rest
  unfolding begin
  begin_word c t rest = refl

  pub split_by_last : (t : Str) → All (λ c. sep c ≡ false) t → split_by sep t ≡ t ∷ []
  unfolding split_by
  split_by_last [] h = refl
  split_by_last (c ∷ t) (h, hs) = rw (h, split_by_last t hs) (begin_word c t [])

  pub split_by_word :
      (t s : Str) (d : ℕ)
      → All (λ c. sep c ≡ false) t
      → sep d ≡ true
      → split_by sep (t ++ d ∷ s) ≡ t ∷ split_by sep s
  unfolding split_by
  split_by_word [] s d h g = rw g
  split_by_word (c ∷ t) s d (h, hs) g =
      rw (h, split_by_word t s d hs g) (begin_word c t (split_by sep s))

visible_part : (t : Str) → All IsVisible t → All (λ c. is_space c ≡ false) t
visible_part [] _ = tt
visible_part (c ∷ t) (h, hs) = (space_false c h, visible_part t hs)

non_empty_word : (t : Str) (ts : List Str) → t ≢ [] → non_empty (t ∷ ts) ≡ t ∷ non_empty ts
unfolding non_empty
non_empty_word [] ts h = absurd (h refl)
non_empty_word (c ∷ t) ts h = refl

-- Tokens of visible characters, joined by spaces, split into the same tokens.
pub split-join : (ts : List Str) → All IsWord ts → split (join ts) ≡ ts
unfolding split join
split-join [] _ = unfold split_by non_empty in refl
split-join (t ∷ []) ((h, full), _) =
    rw (split_by_last is_space t (visible_part t h), non_empty_word t [] full)
      (unfold non_empty in refl)
split-join (t ∷ u ∷ ts) ((h, full), hs) =
    ap non_empty
      (split_by_word is_space t (join (u ∷ ts)) 32 (visible_part t h) (unfold is_space in refl))
    ∙ non_empty_word t _ full
    ∙ ap (λ l. t ∷ l) (split-join (u ∷ ts) hs)

partition-token :
    (key value : Str)
    → All (λ c. (c == b'=') ≡ false) key
    → partition b'=' (token (key, value)) ≡ some (key, value)
unfolding partition
partition-token [] value _ = refl
partition-token (c ∷ key) value (h, hs) = rw (h, partition-token key value hs)

-- Writes of a list of fields, from the left.
abbrev pub insert_all : Dict Str Str → List (Str × Str) → Dict Str Str
insert_all fields [] = fields
insert_all fields ((k, v) ∷ kvs) = insert_all (insert k v fields) kvs

pub read_fields_tokens :
    (fields : Dict Str Str) (kvs : List (Str × Str))
    → All (λ kv. All (λ c. (c == b'=') ≡ false) kv.0) kvs
    → read_fields fields (map token kvs) ≡ ok (insert_all fields kvs)
unfolding read_fields
read_fields_tokens fields [] _ = refl
read_fields_tokens fields ((k, v) ∷ kvs) (h, hs) =
    rw (partition-token k v h, read_fields) (read_fields_tokens (insert k v fields) kvs hs)
