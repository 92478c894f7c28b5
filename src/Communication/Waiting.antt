-- ===== src/Communication/Waiting.antt =====
-- PipeRead of InterProcessComunicationManager.cpp where it waits.
use twisted_os_v.Common.{
  ℕ, ◌≡◌, ◌≢◌, refl, sym, subst, Bool, true, false, not, ◌⊎◌, ◌||◌, none, some, inl, inr, List, [],
  ◌∷◌, take, drop, All, arith, ◌==◌, if◌then◌else◌, Bool-cases,
}
use twisted_os_v.Communication.Pipes.{
  transferred, failed, eagain, eintr, PipeCall, Outcome, returned, asleep, Waited, ready, ended,
  wait_loop, read_check, min, copy_out, settle, pipe_read,
}
use twisted_os_v.Communication.Queue.{IsPipe, queue, copied_out, copy_out-queue}
use twisted_os_v.Communication.Transfers.{pipe_file, read-opens}

-- A reader that cannot go on but may sleep: the pipe is empty, somebody can write to it, and the call
-- may and can wait.
abbrev pub MustWait : (is_non_blocking active : Bool) → PipeCall → Type 0
MustWait is_non_blocking active call =
    (call.pipe.buffered_bytes ≡ 0)
    × (call.pipe.writer_reference_count ≢ 0)
    × ((is_non_blocking || not active) ≡ false)

-- What becomes of a reader, by the states in which it is woken and the state it starts from.
pub data Reads (is_non_blocking active : Bool) (count : ℕ)
    : List PipeCall → PipeCall → Outcome → Type 0 where
  takes_bytes :
      (wakes : List PipeCall) (call : PipeCall)
      → call.pipe.buffered_bytes ≢ 0
      → IsPipe (copied_out count call).pipe
      → queue (copied_out count call).pipe
        ≡ drop (min count call.pipe.buffered_bytes) (queue call.pipe)
      → Reads is_non_blocking active count wakes call (
          returned
            (transferred (min count call.pipe.buffered_bytes))
            (take (min count call.pipe.buffered_bytes) (queue call.pipe))
            (copied_out count call))
  meets_end :
      (wakes : List PipeCall) (call : PipeCall)
      → call.pipe.buffered_bytes ≡ 0
      → call.pipe.writer_reference_count ≡ 0
      → Reads is_non_blocking active count wakes call (returned (transferred 0) [] call)
  would_block :
      (wakes : List PipeCall) (call : PipeCall)
      → call.pipe.buffered_bytes ≡ 0
      → call.pipe.writer_reference_count ≢ 0
      → (is_non_blocking || not active) ≡ true
      → Reads is_non_blocking active count wakes call (returned (failed eagain) [] call)
  sleeps :
      (call : PipeCall)
      → MustWait is_non_blocking active call
      → Reads is_non_blocking active count [] call (asleep call)
  meets_signal :
      (woken : PipeCall) (later : List PipeCall) (call : PipeCall)
      → MustWait is_non_blocking active call
      → woken.interrupted_by_signal ≡ true
      → Reads is_non_blocking active count
          (woken ∷ later)
          call
          (returned (failed eintr) [] (record woken { interrupted_by_signal = false }))
  wakes_up :
      (woken : PipeCall) (later : List PipeCall) (call : PipeCall) (outcome : Outcome)
      → MustWait is_non_blocking active call
      → woken.interrupted_by_signal ≡ false
      → Reads is_non_blocking active count later woken outcome
      → Reads is_non_blocking active count (woken ∷ later) call outcome

-- One round: an answer, or an empty pipe that may get bytes.
read_check-cases :
    (is_non_blocking active : Bool) (count : ℕ) (wakes : List PipeCall) (call : PipeCall)
    → IsPipe call.pipe
    → ((answer : Waited) × ((read_check is_non_blocking active call ≡ some answer)
          × Reads is_non_blocking active count wakes call (settle (copy_out count) answer)))
      ⊎ ((read_check is_non_blocking active call ≡ none) × MustWait is_non_blocking active call)
unfolding read_check
read_check-cases is_non_blocking active count wakes call is =
    let (made, valid, left) = copy_out-queue count call is in
    elim (Bool-cases (call.pipe.buffered_bytes == 0)) [
      | inr filled ↦ inl (
        ready call,
        (
          rw (read_check, filled) refl,
          subst (Reads is_non_blocking active count wakes call) (sym made)
              (takes_bytes wakes call (ground (arith, filled)) valid left),
        ),
      )
      | inl empty ↦ elim (Bool-cases (call.pipe.writer_reference_count == 0)) [
        | inl closed ↦ inl (
          ended (transferred 0) call,
          (
            rw (read_check, empty, closed) refl,
            meets_end wakes call (ground (arith, empty)) (ground (arith, closed)),
          ),
        )
        | inr open_ ↦ elim (Bool-cases is_non_blocking) [
          | inl non_blocking ↦ inl (
            ended (failed eagain) call,
            (
              rw (read_check, empty, open_, non_blocking) refl,
              would_block wakes call (ground (arith, empty)) (ground (arith, open_))
                  (ground (arith, non_blocking)),
            ),
          )
          | inr blocking ↦ elim (Bool-cases active) [
            | inr alone ↦ inl (
              ended (failed eagain) call,
              (
                rw (read_check, empty, open_, blocking, alone) refl,
                would_block wakes call (ground (arith, empty)) (ground (arith, open_))
                    (ground (arith, alone)),
              ),
            )
            | inl there ↦ inr (
              rw (read_check, empty, open_, blocking, there) refl,
              (ground (arith, empty), ground (arith, open_), ground (arith, blocking, there)),
            )
          ]
        ]
      ]
    ]

wait_loop-Reads :
    (is_non_blocking active : Bool) (count : ℕ) (wakes : List PipeCall) (call : PipeCall)
    → IsPipe call.pipe
    → All (λ woken. IsPipe woken.pipe) wakes
    → Reads is_non_blocking active count wakes call
        (settle (copy_out count) (wait_loop (read_check is_non_blocking active) wakes call))
unfolding wait_loop
wait_loop-Reads is_non_blocking active count [] call is all =
    elim (read_check-cases is_non_blocking active count [] call is) [
      | inl (answer, (answered, reads)) ↦ rw (wait_loop, answered) reads
      | inr (unanswered, must_wait) ↦ rw (wait_loop, unanswered) (sleeps call must_wait)
    ]
wait_loop-Reads is_non_blocking active count (woken ∷ later) call is (first, rest) =
    let calm = record woken { interrupted_by_signal = false } in
    let Then : Bool → Type 0 = λ signal. Reads is_non_blocking active count (woken ∷ later) call (
      settle (copy_out count) (
        if signal
        then ended (failed eintr) calm
        else wait_loop (read_check is_non_blocking active) later woken)) in
    elim (read_check-cases is_non_blocking active count (woken ∷ later) call is) [
      | inl (answer, (answered, reads)) ↦ rw (wait_loop, answered) reads
      | inr (unanswered, must_wait) ↦
          rw (wait_loop, unanswered)
            (elim (Bool-cases woken.interrupted_by_signal) [
              | inl signal ↦
                  subst Then (sym signal) (meets_signal woken later call must_wait signal)
              | inr quiet ↦ subst Then (sym quiet) (
                  wakes_up woken later call
                    (settle (copy_out count)
                      (wait_loop (read_check is_non_blocking active) later woken))
                    must_wait quiet
                    (wait_loop-Reads is_non_blocking active count later woken first rest))
            ])
    ]

-- PipeRead of some bytes, from any state of the pipe and for any states in which it is woken, as long
-- as the offsets agree in each. From a pipe that is not empty it takes the first bytes, as many as there
-- are or as were asked for, and those are the ones the pipe loses; at an empty pipe that nobody can write
-- to it returns 0; at an empty one that it must not or cannot wait for, EAGAIN. Else it sleeps, and when
-- it is woken, it returns EINTR and clears the signal's flag exactly if the flag is set, and starts over
-- from the new state if not.
pub pipe_read-Reads :
    (is_non_blocking active : Bool) (count : ℕ) (wakes : List PipeCall) (call : PipeCall)
    → IsPipe call.pipe
    → All (λ woken. IsPipe woken.pipe) wakes
    → count ≢ 0
    → Reads is_non_blocking active count wakes call
        (pipe_read (some (pipe_file true is_non_blocking)) false active count wakes call)
pipe_read-Reads is_non_blocking active count wakes call is all some_count =
    subst (Reads is_non_blocking active count wakes call)
      (sym (read-opens is_non_blocking active count wakes call some_count))
      (wait_loop-Reads is_non_blocking active count wakes call is all)
