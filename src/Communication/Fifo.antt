-- ===== src/Communication/Fifo.antt =====
-- The loops of InterProcessComunicationManager.cpp over a ring, seen as a queue of bytes.
use native.Mathlib.Nat.{mod_self, mod-eq_of_lt, mod-lt}
use twisted_os_v.Common.{
  ℕ, zero, suc, ◌+◌, ◌-◌, ◌%◌, ◌≤◌, ◌<◌, ◌≡◌, ◌≢◌, refl, sym, ap, subst, ◌∙◌, true, false, inl, inr,
  List, [], ◌∷◌, ◌++◌, length, take, arith, ◌==◌, ltb, if◌then◌else◌, Bool-cases,
}
use twisted_os_v.Communication.Ring.{read_loop, write_loop}

-- The bytes that stand in a ring from an offset on.
abbrev pub contents : (count capacity offset : ℕ) → (ℕ → ℕ) → List ℕ
contents zero capacity offset buffer = []
contents (suc count) capacity offset buffer =
    buffer offset ∷ contents count capacity ((offset + 1) % capacity) buffer

-- The offset some bytes further on.
abbrev pub wrap : (offset count capacity : ℕ) → ℕ
wrap offset count capacity =
    if ltb (offset + count) capacity then offset + count else offset + count - capacity

next-wrap :
    (offset capacity : ℕ) → offset < capacity → (offset + 1) % capacity ≡ wrap offset 1 capacity
next-wrap offset capacity inside = elim (Bool-cases (ltb (offset + 1) capacity)) [
  | inl more ↦ rw more (mod-eq_of_lt (ground (arith, more)))
  | inr last ↦
      let e : offset + 1 ≡ capacity = ground (arith, last) in
      rw last
        (subst (λ c. (offset + 1) % c ≡ offset + 1 - c) e (mod_self (offset + 1) ∙ omega arith))
]

next-inside : (offset capacity : ℕ) → offset < capacity → (offset + 1) % capacity < capacity
next-inside offset capacity inside = mod-lt (offset + 1) (omega arith)

wrap-next :
    (offset count capacity : ℕ)
    → offset < capacity
    → count < capacity
    → wrap ((offset + 1) % capacity) count capacity ≡ wrap offset (suc count) capacity
wrap-next offset count capacity inside few =
    subst (λ o. wrap o count capacity ≡ wrap offset (suc count) capacity)
      (sym (next-wrap offset capacity inside)) (ground arith)

pub wrap-inside :
    (offset count capacity : ℕ)
    → offset < capacity
    → count ≤ capacity
    → wrap offset count capacity < capacity
wrap-inside offset count capacity inside few = ground arith

pub wrap-rest :
    (offset first all capacity : ℕ)
    → offset < capacity
    → first ≤ all
    → all ≤ capacity
    → wrap offset all capacity ≡ wrap (wrap offset first capacity) (all - first) capacity
wrap-rest offset first all capacity inside some_of few = ground arith

-- Bytes that agree wherever the contents stand.
pub contents-ext :
    (count capacity offset : ℕ) (buffer buffer' : ℕ → ℕ)
    → offset < capacity
    → count ≤ capacity
    → ((i : ℕ) → i < count → buffer (wrap offset i capacity) ≡ buffer' (wrap offset i capacity))
    → contents count capacity offset buffer ≡ contents count capacity offset buffer'
contents-ext zero capacity offset buffer buffer' inside few same = refl
contents-ext (suc count) capacity offset buffer buffer' inside few same =
    let here : wrap offset 0 capacity ≡ offset = ground arith in
    let first : buffer offset ≡ buffer' offset =
      subst (λ o. buffer o ≡ buffer' o) here (same 0 (omega arith)) in
    let rest =
      contents-ext count capacity ((offset + 1) % capacity) buffer buffer'
        (next-inside offset capacity inside) (omega arith)
        (λ i less.
          subst (λ o. buffer o ≡ buffer' o) (sym (wrap-next offset i capacity inside (omega arith)))
            (same (suc i) (omega arith))) in
    λ i. first i ∷ rest i

pub contents-append :
    (count more capacity offset : ℕ) (buffer : ℕ → ℕ)
    → offset < capacity
    → count ≤ capacity
    → contents (count + more) capacity offset buffer
      ≡ contents count capacity offset buffer
        ++ contents more capacity (wrap offset count capacity) buffer
contents-append zero more capacity offset buffer inside few =
    let here : wrap offset 0 capacity ≡ offset = ground arith in
    let none : 0 + more ≡ more = omega arith in λ i. contents (none i) capacity (sym here i) buffer
contents-append (suc count) more capacity offset buffer inside few =
    let rest =
      contents-append count more capacity ((offset + 1) % capacity) buffer
        (next-inside offset capacity inside) (omega arith) in
    let end = wrap-next offset count capacity inside (omega arith) in
    let counted : suc count + more ≡ suc (count + more) = omega arith in
    ap (λ n. contents n capacity offset buffer) counted ∙ (λ i. buffer offset ∷ rest i) ∙ (λ i.
      buffer offset
      ∷ (contents count capacity ((offset + 1) % capacity) buffer
          ++ contents more capacity (end i) buffer))

pub read_loop_lem :
    (count capacity offset : ℕ) (buffer : ℕ → ℕ)
    → offset < capacity
    → count ≤ capacity
    → read_loop count capacity offset buffer
      ≡ (contents count capacity offset buffer, wrap offset count capacity)
unfolding read_loop
read_loop_lem zero capacity offset buffer inside few =
    let here : wrap offset 0 capacity ≡ offset = ground arith in λ i. ([], sym here i)
read_loop_lem (suc count) capacity offset buffer inside few =
    let rest =
      read_loop_lem count capacity ((offset + 1) % capacity) buffer
        (next-inside offset capacity inside) (omega arith) in
    let end = wrap-next offset count capacity inside (omega arith) in
    λ i. (buffer offset ∷ (rest i).0, ((ap (λ r. r.1) rest ∙ end) i))

-- What the loop over written bytes leaves: the offset behind the bytes, the bytes themselves and all
-- other places.
pub write_loop-end :
    (count capacity offset : ℕ) (bytes : List ℕ) (buffer : ℕ → ℕ)
    → offset < capacity
    → count ≤ capacity
    → count ≤ length bytes
    → (write_loop count capacity offset bytes buffer).1 ≡ wrap offset count capacity
unfolding write_loop
write_loop-end zero capacity offset bytes buffer inside few enough = ground arith
write_loop-end (suc count) capacity offset [] buffer inside few enough = absurd (omega arith)
write_loop-end (suc count) capacity offset (byte ∷ bytes) buffer inside few enough =
    write_loop-end count capacity ((offset + 1) % capacity) bytes
      (λ i. if i == offset then byte else buffer i) (next-inside offset capacity inside)
      (omega arith) (omega arith)
    ∙ wrap-next offset count capacity inside (omega arith)

pub write_loop-others :
    (count capacity offset : ℕ) (bytes : List ℕ) (buffer : ℕ → ℕ) (place : ℕ)
    → offset < capacity
    → count ≤ capacity
    → ((i : ℕ) → i < count → wrap offset i capacity ≢ place)
    → (write_loop count capacity offset bytes buffer).0 place ≡ buffer place
unfolding write_loop
write_loop-others zero capacity offset bytes buffer place inside few apart = refl
write_loop-others (suc count) capacity offset [] buffer place inside few apart = refl
write_loop-others (suc count) capacity offset (byte ∷ bytes) buffer place inside few apart =
    let here : wrap offset 0 capacity ≡ offset = ground arith in
    let other : (place == offset) ≡ false =
      (let ne = apart 0 (omega arith) in ground (arith, ne, here)) in
    write_loop-others count capacity ((offset + 1) % capacity) bytes
      (λ i. if i == offset then byte else buffer i) place (next-inside offset capacity inside)
      (omega arith)
      (λ i less.
        subst (λ o. o ≢ place) (sym (wrap-next offset i capacity inside (omega arith)))
          (apart (suc i) (omega arith)))
    ∙ rw other refl

pub write_loop-bytes :
    (count capacity offset : ℕ) (bytes : List ℕ) (buffer : ℕ → ℕ)
    → offset < capacity
    → count ≤ capacity
    → count ≤ length bytes
    → contents count capacity offset (write_loop count capacity offset bytes buffer).0
      ≡ take count bytes
unfolding write_loop
write_loop-bytes zero capacity offset bytes buffer inside few enough = refl
write_loop-bytes (suc count) capacity offset [] buffer inside few enough = absurd (omega arith)
write_loop-bytes (suc count) capacity offset (byte ∷ bytes) buffer inside few enough =
    let written : ℕ → ℕ = λ i. if i == offset then byte else buffer i in
    let next = (offset + 1) % capacity in
    let same : (offset == offset) ≡ true = ground arith in
    let first : (write_loop count capacity next bytes written).0 offset ≡ byte =
      write_loop-others count capacity next bytes written offset
        (next-inside offset capacity inside) (omega arith)
        (λ i less e.
          (let e' = sym (wrap-next offset i capacity inside (omega arith)) ∙ e in
            ground (arith, e')))
      ∙ rw same refl in
    let rest =
      write_loop-bytes count capacity next bytes written (next-inside offset capacity inside)
        (omega arith) (omega arith) in
    λ i. first i ∷ rest i
