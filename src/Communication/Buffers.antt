-- ===== src/Communication/Buffers.antt =====
-- Reading and writing the rings of InterProcessComunicationManager.cpp, of any capacity.
use twisted_os_v.Common.{
  ℕ, zero, suc, ◌+◌, ◌-◌, ◌%◌, ◌≤◌, ◌<◌, ◌≡◌, refl, sym, ap, ◌∙◌, List, [], ◌∷◌, ◌++◌, length, take,
  drop, arith,
}
use twisted_os_v.Communication.Ring.{write_loop}
use twisted_os_v.Communication.Fifo.{
  contents, wrap, wrap-inside, contents-ext, contents-append, write_loop-others, write_loop-bytes,
}

length-contents :
    (count capacity offset : ℕ) (buffer : ℕ → ℕ)
    → length (contents count capacity offset buffer) ≡ count
length-contents zero capacity offset buffer = refl
length-contents (suc count) capacity offset buffer =
    ap suc (length-contents count capacity ((offset + 1) % capacity) buffer)

-- The parts of a list of two parts.
take-append : (xs ys : List ℕ) (n : ℕ) → length xs ≡ n → take n (xs ++ ys) ≡ xs
take-append [] ys zero e = refl
take-append [] ys (suc n) e = absurd (omega (arith, e))
take-append (x ∷ xs) ys zero e = absurd (omega (arith, e))
take-append (x ∷ xs) ys (suc n) e = ap (λ l. x ∷ l) (take-append xs ys n (omega (arith, e)))

drop-append : (xs ys : List ℕ) (n : ℕ) → length xs ≡ n → drop n (xs ++ ys) ≡ ys
drop-append [] ys zero e = refl
drop-append [] ys (suc n) e = absurd (omega (arith, e))
drop-append (x ∷ xs) ys zero e = absurd (omega (arith, e))
drop-append (x ∷ xs) ys (suc n) e = drop-append xs ys n (omega (arith, e))

-- The first bytes of a ring, and those behind them.
pub contents-cut :
    (size count capacity offset : ℕ) (buffer : ℕ → ℕ)
    → offset < capacity
    → size ≤ count
    → count ≤ capacity
    → (contents size capacity offset buffer ≡ take size (contents count capacity offset buffer))
      × (contents (count - size) capacity (wrap offset size capacity) buffer
          ≡ drop size (contents count capacity offset buffer))
contents-cut size count capacity offset buffer inside small few =
    let all : count ≡ size + (count - size) = omega arith in
    let first = contents size capacity offset buffer in
    let rest = contents (count - size) capacity (wrap offset size capacity) buffer in
    let cut =
      ap (λ n. contents n capacity offset buffer) all
      ∙ contents-append size (count - size) capacity offset buffer inside (omega arith) in
    let long = length-contents size capacity offset buffer in
    (
      sym (ap (take size) cut ∙ take-append first rest size long),
      sym (ap (drop size) cut ∙ drop-append first rest size long),
    )

-- What is written behind the bytes of a ring stands behind them.
pub contents-write_loop :
    (size count capacity offset : ℕ) (bytes : List ℕ) (buffer : ℕ → ℕ)
    → offset < capacity
    → 0 < capacity - count
    → count + size ≤ capacity
    → size ≤ length bytes
    → contents
        (count + size)
        capacity
        offset
        (write_loop size capacity (wrap offset count capacity) bytes buffer).0
      ≡ contents count capacity offset buffer ++ take size bytes
contents-write_loop size count capacity offset bytes buffer inside more room small =
    let start = wrap offset count capacity in
    let from : start < capacity = wrap-inside offset count capacity inside (omega arith) in
    let written = (write_loop size capacity start bytes buffer).0 in
    let old = contents-ext count capacity offset written buffer inside (omega arith) (λ i less.
      write_loop-others size capacity start bytes buffer (wrap offset i capacity) from (omega arith)
        (λ j fewer e. ground (arith, e, less, fewer))) in
    let new = write_loop-bytes size capacity start bytes buffer from (omega arith) small in
    contents-append count size capacity offset written inside (omega arith) ∙ (λ i. old i ++ new i)
