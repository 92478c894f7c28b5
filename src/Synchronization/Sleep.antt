-- ===== src/Synchronization/Sleep.antt =====
-- The sleepers of SynchronizationManager.cpp over several ticks of the clock.
use twisted_os_v.Common.{
  ℕ, zero, suc, ◌≡◌, refl, ◌∙◌, true, false, List, [], ◌∷◌, arith, ◌==◌, leb, if◌then◌else◌,
  Bool-cases, inl, inr,
}
use twisted_os_v.Process.{process_id_invalid}
use twisted_os_v.Synchronization.{SleepTag, find_tag, tick, get_next_process_to_wake}

abbrev pub ticks : ℕ → List SleepTag → List SleepTag
ticks zero ts = ts
ticks (suc n) ts = ticks n (tick ts)

-- The first sleeper whose time is at most `n` ticks.
abbrev pub first_due : ℕ → List SleepTag → ℕ
first_due n [] = process_id_invalid
first_due n (t ∷ ts) = if leb t.wait_ticks_remaining n then t.id else first_due n ts

due_now : (ts : List SleepTag) → get_next_process_to_wake ts ≡ first_due 0 ts
unfolding get_next_process_to_wake find_tag
due_now [] = refl
due_now (t ∷ ts) = elim (Bool-cases (t.wait_ticks_remaining == 0)) [
  | inl zero_left ↦
      let due : leb t.wait_ticks_remaining 0 ≡ true = ground arith in
      rw (get_next_process_to_wake, zero_left, due)
  | inr some_left ↦
      let waiting : leb t.wait_ticks_remaining 0 ≡ false = ground arith in
      rw (get_next_process_to_wake, some_left, waiting) (due_now ts)
]

first_due-tick : (n : ℕ) (ts : List SleepTag) → first_due n (tick ts) ≡ first_due (suc n) ts
unfolding tick
first_due-tick n [] = refl
first_due-tick n (t ∷ ts) = ground (arith, first_due-tick n ts)

-- After any number of ticks GetNextProcessToWake returns the process, of those that have slept as long
-- as they asked for, that was added first, and 0xFF if there is none: nobody is woken early.
pub get_next_process_to_wake-ticks :
    (n : ℕ) (ts : List SleepTag) → get_next_process_to_wake (ticks n ts) ≡ first_due n ts
get_next_process_to_wake-ticks zero ts = due_now ts
get_next_process_to_wake-ticks (suc n) ts =
    get_next_process_to_wake-ticks n (tick ts) ∙ first_due-tick n ts
