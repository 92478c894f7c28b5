-- ===== src/Communication/Ring.antt =====
-- The copying loops of InterProcessComunicationManager.cpp.
use twisted_os_v.Common.{ℕ, zero, suc, ◌+◌, ◌%◌, List, [], ◌∷◌, ◌==◌, if◌then◌else◌}

-- The loop over the bytes that are read: the bytes, and the offset behind them.
unfoldable pub read_loop : (count capacity offset : ℕ) → (ℕ → ℕ) → List ℕ × ℕ
read_loop zero capacity offset buffer = ([], offset)
read_loop (suc count) capacity offset buffer =
    let (bytes, end) = read_loop count capacity ((offset + 1) % capacity) buffer in
    (buffer offset ∷ bytes, end)

-- The loop over the bytes that are written: the buffer, and the offset behind them.
unfoldable pub write_loop : (count capacity offset : ℕ) → List ℕ → (ℕ → ℕ) → (ℕ → ℕ) × ℕ
write_loop zero capacity offset bytes buffer = (buffer, offset)
write_loop (suc count) capacity offset [] buffer = (buffer, offset)
write_loop (suc count) capacity offset (byte ∷ bytes) buffer =
    write_loop count capacity ((offset + 1) % capacity) bytes
      (λ i. if i == offset then byte else buffer i)
