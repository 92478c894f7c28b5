-- ===== src/ProcessManager/Slots.antt =====
-- The searches of ProcessManager.cpp through the process table.
use twisted_os_v.Common.{
  ℕ, ◌⊎◌, zero, suc, ◌<◌, ◌≡◌, refl, ap, Bool, true, false, List, [], ◌∷◌, none, some, arith,
  Bool-cases, inl, inr, get_elem?, length,
}
use twisted_os_v.Process.{Process, ProcessState}
use twisted_os_v.ProcessManager.{find_slot}

-- The status of every entry fails the test.
abbrev pub NonePass : (ProcessState → Bool) → List Process → Type 0
NonePass test [] = Unit
NonePass test (p ∷ ps) = (test p.status ≡ false) × NonePass test ps

-- `p` is the entry at `index`, its status passes the test, and no entry before it does.
abbrev pub FirstAt : (ProcessState → Bool) → List Process → ℕ → Process → Type 0
FirstAt test [] index p = ⊥
FirstAt test (q ∷ ps) zero p = (q ≡ p) × (test p.status ≡ true)
FirstAt test (q ∷ ps) (suc index) p = (test q.status ≡ false) × FirstAt test ps index p

-- A search finds the first entry that passes, and fails only if none passes.
pub find_slot-first :
    (test : ProcessState → Bool) (ps : List Process)
    → ((index : ℕ) × (p : Process) × (find_slot test ps ≡ some (index, p))
        × FirstAt test ps index p)
      ⊎ (find_slot test ps ≡ none) × NonePass test ps
unfolding find_slot
find_slot-first test [] = inr (refl, tt)
find_slot-first test (q ∷ ps) = elim (Bool-cases (test q.status)) [
  | inl passes ↦ inl (0, q, rw passes, (refl, passes))
  | inr fails ↦ elim (find_slot-first test ps) [
    | inl (index, p, found, first) ↦ inl (suc index, p, rw (fails, found), (fails, first))
    | inr (missing, rest) ↦ inr (rw (fails, missing), (fails, rest))
  ]
]

pub FirstAt-get_elem? :
    (test : ProcessState → Bool) (ps : List Process) (index : ℕ) (p : Process)
    → FirstAt test ps index p
    → (get_elem? ps index ≡ some p) × (test p.status ≡ true)
FirstAt-get_elem? test [] index p first = absurd first
FirstAt-get_elem? test (q ∷ ps) zero p first = (ap some first.0, first.1)
FirstAt-get_elem? test (q ∷ ps) (suc index) p first = FirstAt-get_elem? test ps index p first.1

pub NonePass-get_elem? :
    (test : ProcessState → Bool) (ps : List Process) (index : ℕ) (p : Process)
    → NonePass test ps
    → get_elem? ps index ≡ some p
    → test p.status ≡ false
NonePass-get_elem? test [] index p fails at = absurd (ground (arith, at))
NonePass-get_elem? test (q ∷ ps) zero p fails at = ground (arith, at, fails.0)
NonePass-get_elem? test (q ∷ ps) (suc index) p fails at =
    NonePass-get_elem? test ps index p fails.1 at

pub get_elem?-lt :
    (ps : List Process) (index : ℕ) (p : Process) → get_elem? ps index ≡ some p → index < length ps
get_elem?-lt [] index p at = absurd (ground (arith, at))
get_elem?-lt (q ∷ ps) zero p at = omega arith
get_elem?-lt (q ∷ ps) (suc index) p at = omega (arith, get_elem?-lt ps index p at)

pub get_elem?-some :
    (ps : List Process) (index : ℕ)
    → index < length ps
    → (p : Process) × (get_elem? ps index ≡ some p)
get_elem?-some [] index h = absurd (omega arith)
get_elem?-some (q ∷ ps) zero h = (q, refl)
get_elem?-some (q ∷ ps) (suc index) h = get_elem?-some ps index (omega arith)
