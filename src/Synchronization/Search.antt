-- ===== src/Synchronization/Search.antt =====
-- The search loops of SynchronizationManager.cpp.
use twisted_os_v.Common.{
  ◌≡◌, refl, ap, Bool, true, false, List, [], ◌∷◌, ◌++◌, none, some, Bool-cases, ◌⊎◌, inl, inr,
}
use twisted_os_v.Synchronization.{find_tag, remove_tag}

abbrev pub AllFail {ℓ} : {A : Type ℓ} → (A → Bool) → List A → Type 0
AllFail test [] = Unit
AllFail test (x ∷ xs) = (test x ≡ false) × AllFail test xs

-- The search finds the first node that passes, and the removal takes just that one off; or no node
-- passes.
pub find_tag-first {ℓ} :
    {A : Type ℓ} (test : A → Bool) (xs : List A)
    → ((earlier : List A) × (x : A) × (later : List A) × (xs ≡ earlier ++ x ∷ later)
        × AllFail test earlier
        × (test x ≡ true)
        × (find_tag test xs ≡ some x)
        × (remove_tag test xs ≡ earlier ++ later))
      ⊎ AllFail test xs × (find_tag test xs ≡ none)
unfolding find_tag remove_tag
find_tag-first test [] = inr (tt, refl)
find_tag-first test (y ∷ xs) = elim (Bool-cases (test y)) [
  | inl passes ↦ inl ([], y, xs, refl, tt, passes, rw passes, rw passes)
  | inr fails ↦ elim (find_tag-first test xs) [
    | inl (earlier, x, later, split, before, at, found, removed) ↦ inl (
      y ∷ earlier,
      x,
      later,
      ap (λ zs. y ∷ zs) split,
      (fails, before),
      at,
      rw (fails, found),
      rw (fails, removed),
    )
    | inr (none_pass, missing) ↦ inr ((fails, none_pass), rw (fails, missing))
  ]
]
