-- ===== src/Scheduler/RoundRobin.antt =====
-- Repeated calls of SelectNextProcess of Scheduler.cpp.
use twisted_os_v.Common.{
  ℕ, zero, suc, ◌≡◌, refl, ap, subst, ◌∙◌, sym, false, List, [], ◌∷◌, ◌++◌, map, arith, ◌==◌,
  length,
}
use twisted_os_v.Scheduler.{Scheduler, select_next_process}
use twisted_os_v.Scheduler.Tags.{IsScheduler, first}
use twisted_os_v.Scheduler.Ready.{rotated, id_of, select_next_process-IsScheduler}

-- The ids that so many selections in a row return.
abbrev pub selections : ℕ → Scheduler → List ℕ
selections zero s = []
selections (suc n) s = (select_next_process s).0 ∷ selections n (select_next_process s).1

append-[] {ℓ} : {A : Type ℓ} (xs : List A) → xs ++ [] ≡ xs
append-[] [] = refl
append-[] (x ∷ xs) = ap (λ ys. x ∷ ys) (append-[] xs)

append_assoc {ℓ} : {A : Type ℓ} (xs ys zs : List A) → (xs ++ ys) ++ zs ≡ xs ++ (ys ++ zs)
append_assoc [] ys zs = refl
append_assoc (x ∷ xs) ys zs = ap (λ ws. x ∷ ws) (append_assoc xs ys zs)

-- The nodes that come next are selected in turn.
walk :
    (xs ys ps : List ℕ) (p : ℕ) (s : Scheduler)
    → IsScheduler s (p ∷ ps)
    → s.current_process ≡ p
    → ps ++ p ∷ [] ≡ xs ++ ys
    → selections (length xs) s ≡ map s.id xs
walk [] ys ps p s is at ahead = refl
walk (x ∷ xs) ys ps p s is at ahead =
    let (is', at', got, ids) = select_next_process-IsScheduler s (p ∷ ps) is in
    let turned : rotated s.current_process (p ∷ ps) ≡ x ∷ xs ++ ys =
      (let (head, nonzero, _) = is.queue.chain in
        let selected : (s.current_process == 0) ≡ false = ground (arith, at) in
        rw selected ahead) in
    let s' = (select_next_process s).1 in
    let rest =
      walk xs (ys ++ x ∷ []) (xs ++ ys) x s' (subst (IsScheduler s') turned is')
        (at' ∙ ap first turned) (append_assoc xs ys (x ∷ [])) in
    let here : (select_next_process s).0 ≡ s.id x = got ∙ ap (id_of s.id) turned in
    λ i. here i ∷ (rest ∙ ap (λ id. map id xs) ids) i

-- With the first node of the queue selected, as many selections as there are nodes return the id of
-- each once, from the second node on to the last, and of the first node at the end.
pub selections-round :
    (s : Scheduler) (p : ℕ) (ps : List ℕ)
    → IsScheduler s (p ∷ ps)
    → s.current_process ≡ p
    → selections (length (ps ++ p ∷ [])) s ≡ map s.id (ps ++ p ∷ [])
selections-round s p ps is at = walk (ps ++ p ∷ []) [] ps p s is at (sym (append-[] (ps ++ p ∷ [])))
