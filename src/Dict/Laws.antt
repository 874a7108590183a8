-- ===== src/Dict/Laws.antt =====
-- What a read of a dictionary returns after each write.
use fuddy_duddy.Prelude.{
  ◌≡◌, refl, true, false, not, ◌&&◌, ◌||◌, eq_self, none, some, [], ◌∷◌, Eq, ◌==◌, arith,
  if◌then◌else◌,
}
use fuddy_duddy.Dict.{Dict, lookup, contains, insert, erase}

module _ {ℓ} {K V : Type ℓ} ⦃e : Eq K⦄ where
  pub lookup-insert :
      (k j : K) (v : V) (d : Dict K V)
      → lookup j (insert k v d) ≡ (if k == j then some v else lookup j d)
  unfolding lookup insert
  lookup-insert k j v [] = refl
  lookup-insert k j v ((i, w) ∷ d) =
      ground (arith, e.same_iff k j, e.same_iff i k, e.same_iff i j, lookup-insert k j v d)

  pub lookup-erase :
      (k j : K) (d : Dict K V) → lookup j (erase k d) ≡ (if k == j then none else lookup j d)
  unfolding lookup erase
  lookup-erase k j [] = ground arith
  lookup-erase k j ((i, w) ∷ d) =
      ground (arith, e.same_iff k j, e.same_iff i k, e.same_iff i j, lookup-erase k j d)

  pub contains-insert :
      (k j : K) (v : V) (d : Dict K V) → contains j (insert k v d) ≡ (k == j || contains j d)
  unfolding contains
  contains-insert k j v d = ground (arith, lookup-insert k j v d)

  pub contains-erase :
      (k j : K) (d : Dict K V) → contains j (erase k d) ≡ (not (k == j) && contains j d)
  unfolding contains
  contains-erase k j d = ground (arith, lookup-erase k j d)

  pub contains_of_lookup :
      (k : K) (v : V) (d : Dict K V) → lookup k d ≡ some v → contains k d ≡ true
  unfolding contains
  contains_of_lookup k v d h = ground arith

  pub lookup_of_contains :
      (k : K) (d : Dict K V) → contains k d ≡ true → (v : V) × (lookup k d ≡ some v)
  unfolding contains
  lookup_of_contains k d h = ground arith

  pub lookup-insert_self : (k : K) (v : V) (d : Dict K V) → lookup k (insert k v d) ≡ some v
  lookup-insert_self k v d = rw (lookup-insert, eq_self k)

  pub lookup-insert_ne :
      (k j : K) (v : V) (d : Dict K V) → (k == j) ≡ false → lookup j (insert k v d) ≡ lookup j d
  lookup-insert_ne k j v d h = rw (lookup-insert, h)

  pub lookup-erase_self : (k : K) (d : Dict K V) → lookup k (erase k d) ≡ none
  lookup-erase_self k d = rw (lookup-erase, eq_self k)

  pub lookup-erase_ne :
      (k j : K) (d : Dict K V) → (k == j) ≡ false → lookup j (erase k d) ≡ lookup j d
  lookup-erase_ne k j d h = rw (lookup-erase, h)

pub ruleset dict_laws = (lookup-insert, lookup-erase, contains-insert, contains-erase)
