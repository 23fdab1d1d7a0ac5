-- ===== src/Base/Sort.antt =====
-- An insertion sort by a Boolean comparison.
use mathlib.Core.Path.{◌≡◌, refl, ◌∙◌}
use mathlib.Core.Logic.{inl, inr}
use mathlib.Core.Bool.{Bool, true, false}
use mathlib.Core.List.{List, [], ◌∷◌}
use native.Mathlib.Omega.{arith}
use x1miner.Base.Tests.{if◌then◌else◌, Bool-cases}
use x1miner.Base.Lists.{tally, All}

module _ {ℓ} {A : Type ℓ} (before : A → A → Bool) where
  unfoldable insert_by : A → List A → List A
  insert_by a [] = a ∷ []
  insert_by a (b ∷ l) = let later = insert_by a l in if before b a then b ∷ later else a ∷ b ∷ l

  unfoldable pub sort_by : List A → List A
  unfolding insert_by
  sort_by [] = []
  sort_by (a ∷ l) = insert_by a (sort_by l)

  -- No element comes before one that stands ahead of it.
  abbrev pub IsOrdered : List A → Type 0
  IsOrdered [] = Unit
  IsOrdered (a ∷ l) = All (λ b. before b a ≡ false) l × IsOrdered l

  All-insert_by {κ} : (P : A → Type κ) (a : A) (l : List A) → P a → All P l → All P (insert_by a l)
  unfolding insert_by
  All-insert_by P a [] p h = (p, tt)
  All-insert_by P a (b ∷ l) p h = elim (Bool-cases (before b a)) [
    | inl e ↦ rw (e, insert_by) (h.0, All-insert_by P a l p h.1)
    | inr e ↦ rw (e, insert_by) (p, h)
  ]

  pub All-sort_by {κ} : (P : A → Type κ) (l : List A) → All P l → All P (sort_by l)
  unfolding sort_by
  All-sort_by P [] h = tt
  All-sort_by P (a ∷ l) h = All-insert_by P a (sort_by l) h.0 (All-sort_by P l h.1)

  tally-insert_by : (q : A → Bool) (a : A) (l : List A) → tally q (insert_by a l) ≡ tally q (a ∷ l)
  unfolding insert_by
  tally-insert_by q a [] = refl
  tally-insert_by q a (b ∷ l) = elim (Bool-cases (before b a)) [
    | inl e ↦ rw (e, insert_by) (ground (arith, tally-insert_by q a l))
    | inr e ↦ rw (e, insert_by) refl
  ]

  pub tally-sort_by : (q : A → Bool) (l : List A) → tally q (sort_by l) ≡ tally q l
  unfolding sort_by
  tally-sort_by q [] = refl
  tally-sort_by q (a ∷ l) = tally-insert_by q a (sort_by l) ∙ ground (arith, tally-sort_by q l)

  -- The comparison never holds both ways, and its negation is transitive.
  module _ (asym : (a b : A) → before b a ≡ true → before a b ≡ false)
      (behind : (a b c : A) → before c b ≡ false → before b a ≡ false → before c a ≡ false) where
    All-behind :
        (a b : A) (l : List A)
        → before b a ≡ false
        → All (λ c. before c b ≡ false) l
        → All (λ c. before c a ≡ false) l
    All-behind a b [] h k = tt
    All-behind a b (c ∷ l) h k = (behind a b c k.0 h, All-behind a b l h k.1)

    insert_by-IsOrdered : (a : A) (l : List A) → IsOrdered l → IsOrdered (insert_by a l)
    unfolding insert_by
    insert_by-IsOrdered a [] h = (tt, tt)
    insert_by-IsOrdered a (b ∷ l) h = elim (Bool-cases (before b a)) [
      | inl e ↦
          rw (e, insert_by)
            (
              All-insert_by (λ c. before c b ≡ false) a l (asym a b e) h.0,
              insert_by-IsOrdered a l h.1,
            )
      | inr e ↦ rw (e, insert_by) ((e, All-behind a b l e h.0), h)
    ]

    pub sort_by-IsOrdered : (l : List A) → IsOrdered (sort_by l)
    unfolding sort_by
    sort_by-IsOrdered [] = tt
    sort_by-IsOrdered (a ∷ l) = insert_by-IsOrdered a (sort_by l) (sort_by-IsOrdered l)
