-- ===== src/Dict/Entries.antt =====
-- A predicate of every entry of a dictionary, and how writes keep it.
use mathlib.Core.Path.{subst₂}
use fuddy_duddy.Prelude.{◌≡◌, arith, ◌∙◌, sym, some, ◌==◌, Eq, inl, inr, Bool-cases, of_eq_true, []}
use fuddy_duddy.Dict.{Dict, lookup, insert, erase}
use fuddy_duddy.Dict.Laws.{lookup-insert, lookup-insert_ne, lookup-erase, lookup-erase_ne}

module _ {ℓ} {K V : Type ℓ} ⦃e : Eq K⦄ (P : K → V → Type ℓ) where
  abbrev pub Entries : Dict K V → Type ℓ
  Entries d = (k : K) (v : V) → lookup k d ≡ some v → P k v

  pub Entries-nil : Entries []
  unfolding lookup
  Entries-nil k v h = cc

  pub Entries-insert : (k : K) (v : V) (d : Dict K V) → P k v → Entries d → Entries (insert k v d)
  Entries-insert k v d pv pd j u h = elim (Bool-cases (k == j)) [
    | inl same ↦
        let e : v ≡ u = ground (arith, lookup-insert k j v d) in subst₂ P (of_eq_true k j same) e pv
    | inr other ↦ pd j u (sym (lookup-insert_ne k j v d other) ∙ h)
  ]

  pub Entries-erase : (k : K) (d : Dict K V) → Entries d → Entries (erase k d)
  Entries-erase k d pd j u h = elim (Bool-cases (k == j)) [
    | inl same ↦ cc (rw same at (lookup-erase k j d))
    | inr other ↦ pd j u (sym (lookup-erase_ne k j d other) ∙ h)
  ]
