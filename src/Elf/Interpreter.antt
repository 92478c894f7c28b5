-- ===== src/Elf/Interpreter.antt =====
-- GetInterpreterPath of ELFManager.cpp: what it copies when it succeeds.
use twisted_os_v.Common.{
  ℕ, zero, suc, ◌+◌, ◌-◌, ◌*◌, ◌≤◌, ◌<◌, ◌≡◌, ◌≢◌, refl, sym, ap, ◌∙◌, subst, true, false, ◌||◌,
  arith, ◌==◌, ltb, if◌then◌else◌, Bool-cases, ==_iff, inl, inr,
}
use twisted_os_v.Common.Words.{u64}
use twisted_os_v.Elf.{
  ElfHeader, ElfProgramHeader, range_fits_in_image, is_null_terminated, write_byte, copy_bytes,
  copy_interpreter, is_interpreter, interpreter_loop, get_interpreter_path,
  get_program_header_table, validate_program_header_table, read_program_header, program_header_size,
}
use twisted_os_v.Elf.Ranges.{range_fits_in_image_iff}

-- The place of the terminator that the scan stops at.
is_null_terminated-first :
    (remaining index : ℕ) (path : ℕ → ℕ)
    → is_null_terminated remaining index path ≡ true
    → (n : ℕ) × (index ≤ n)
      × (n < index + remaining)
      × (path n ≡ 0)
      × ((i : ℕ) → index ≤ i → i < n → path i ≢ 0)
unfolding is_null_terminated
is_null_terminated-first zero index path found = absurd (ground (arith, found))
is_null_terminated-first (suc remaining) index path found = elim (Bool-cases (path index == 0)) [
  | inl here ↦ (
    index,
    omega arith,
    omega arith,
    ground (arith, here),
    λ i from to. absurd (omega (arith, from, to)),
  )
  | inr later ↦
      let (n, from, to, null, before) =
        is_null_terminated-first remaining (index + 1) path (ground (arith, found, later)) in
      (
        n,
        omega (arith, from),
        omega (arith, to),
        null,
        λ i from' to' e. elim (Bool-cases (i == index)) [
          | inl same ↦
              absurd (ground (arith, later, subst (λ k. path k ≡ 0) ((==_iff i index).0 same) e))
          | inr other ↦ before i (ground (arith, from', other)) to' e
        ],
      )
]

copy_bytes_lem :
    (size : ℕ) (path buffer : ℕ → ℕ) (i : ℕ)
    → copy_bytes size path buffer i ≡ (if ltb i size then path i else buffer i)
unfolding copy_bytes
copy_bytes_lem zero path buffer i = ground arith
copy_bytes_lem (suc size) path buffer i = elim (Bool-cases (i == size)) [
  | inl same ↦
      let e = (==_iff i size).0 same in
      let less : ltb i (suc size) ≡ true = ground (arith, e) in rw (same, less) (ap path (sym e))
  | inr other ↦ rw other (ground (arith, other, copy_bytes_lem size path buffer i))
]

-- The last byte of the buffer, which is cleared after the copy, is none of the string.
copied-byte :
    (path buffer : ℕ → ℕ) (file_size buffer_size n i : ℕ)
    → n < file_size
    → file_size ≤ buffer_size
    → path n ≡ 0
    → i ≤ n
    → write_byte (copy_bytes file_size path buffer) (buffer_size - 1) 0 i ≡ path i
copied-byte path buffer file_size buffer_size n i to fits null within =
    elim (Bool-cases (i == buffer_size - 1)) [
      | inl same ↦ let e : n ≡ i = ground (arith, same) in rw same (sym null ∙ ap path e)
      | inr other ↦
          let less : ltb i file_size ≡ true = ground arith in
          rw (other, copy_bytes_lem file_size path buffer i, less)
    ]

untouched-byte :
    (path buffer : ℕ → ℕ) (file_size buffer_size i : ℕ)
    → 0 < file_size
    → file_size ≤ buffer_size
    → buffer_size ≤ i
    → write_byte (copy_bytes file_size path buffer) (buffer_size - 1) 0 i ≡ buffer i
untouched-byte path buffer file_size buffer_size i some_bytes fits behind =
    let other : (i == buffer_size - 1) ≡ false = ground arith in
    let more : ltb i file_size ≡ false = ground arith in
    rw (other, copy_bytes_lem file_size path buffer i, more)

-- The buffer holds the string at `path`, which ends within the file's range, with its terminator, and
-- nothing behind the buffer's end is written.
abbrev pub Copied :
    (path : ℕ → ℕ) (file_size : ℕ) (buffer buffer' : ℕ → ℕ) (buffer_size : ℕ) → Type 0
Copied path file_size buffer buffer' buffer_size =
    (n : ℕ) × (n < file_size)
    × (file_size ≤ buffer_size)
    × (path n ≡ 0)
    × ((i : ℕ) → i < n → path i ≢ 0)
    × ((i : ℕ) → i ≤ n → buffer' i ≡ path i)
    × ((i : ℕ) → buffer_size ≤ i → buffer' i ≡ buffer i)

abbrev pub path_at : (ℕ → ℕ) → (physical_address : ℕ) → ElfProgramHeader → ℕ → ℕ
path_at memory physical_address ph i = memory (u64 (u64 (physical_address + ph.offset) + i))

copy_interpreter-Copied :
    (memory : ℕ → ℕ) (physical_address image_size : ℕ) (ph : ElfProgramHeader)
    (buffer buffer' : ℕ → ℕ) (buffer_size : ℕ)
    → copy_interpreter memory physical_address image_size ph buffer buffer_size ≡ (true, buffer')
    → (ph.offset + ph.file_size ≤ image_size)
      × Copied (path_at memory physical_address ph) ph.file_size buffer buffer' buffer_size
unfolding copy_interpreter
copy_interpreter-Copied memory physical_address image_size ph buffer buffer' buffer_size done =
    let path = path_at memory physical_address ph in
    let refused : copy_interpreter memory physical_address image_size ph buffer buffer_size
          ≡ (false, buffer)
        → ⊥ =
      λ e. absurd (ground (arith, ap (λ r. r.0) (sym done ∙ e))) in
    elim (Bool-cases (range_fits_in_image ph.offset ph.file_size image_size)) [
      | inr bad ↦ absurd (refused (rw (copy_interpreter, bad) refl))
      | inl fits ↦ elim (Bool-cases (ltb buffer_size ph.file_size)) [
        | inl long ↦ absurd (refused (rw (copy_interpreter, fits, long) refl))
        | inr short ↦ elim (Bool-cases (is_null_terminated ph.file_size 0 path)) [
          | inr open_end ↦ absurd (refused (rw (copy_interpreter, fits, short, open_end) refl))
          | inl ends ↦
              let made : copy_interpreter memory physical_address image_size ph buffer buffer_size
                  ≡ (true, write_byte (copy_bytes ph.file_size path buffer) (buffer_size - 1) 0) =
                rw (copy_interpreter, fits, short, ends) refl in
              let same : buffer'
                  ≡ write_byte (copy_bytes ph.file_size path buffer) (buffer_size - 1) 0 =
                ap (λ r. r.1) (sym done ∙ made) in
              let (n, _, to, null, before) = is_null_terminated-first ph.file_size 0 path ends in
              let inside : n < ph.file_size = omega (arith, to) in
              let room : ph.file_size ≤ buffer_size = ground (arith, short) in
              (
                (range_fits_in_image_iff ph.offset ph.file_size image_size).0 fits,
                (
                  n,
                  inside,
                  room,
                  null,
                  (λ i. before i (omega arith)),
                  (λ i within.
                      ap (λ b. b i) same
                      ∙ copied-byte path buffer ph.file_size buffer_size n i inside room null
                          within),
                  λ i behind.
                      ap (λ b. b i) same
                      ∙ untouched-byte path buffer ph.file_size buffer_size i
                          (omega (arith, inside)) room behind,
                ),
              )
        ]
      ]
    ]

abbrev pub header_at : (ℕ → ℕ) → (table index : ℕ) → ElfProgramHeader
header_at memory table index =
    read_program_header memory (u64 (table + index * program_header_size))

-- The first interpreter header of the table from `index` on, whose path is copied from the image.
abbrev pub CopiedFrom :
    (memory : ℕ → ℕ) (table physical_address image_size : ℕ) (buffer buffer' : ℕ → ℕ)
    (buffer_size index limit : ℕ)
    → Type 0
CopiedFrom memory table physical_address image_size buffer buffer' buffer_size index limit =
    (k : ℕ) × (index ≤ k)
    × (k < limit)
    × (is_interpreter (header_at memory table k) ≡ true)
    × ((j : ℕ) → index ≤ j → j < k → is_interpreter (header_at memory table j) ≡ false)
    × ((header_at memory table k).offset + (header_at memory table k).file_size ≤ image_size)
    × Copied (path_at memory physical_address (header_at memory table k))
        (header_at memory table k).file_size buffer buffer' buffer_size

interpreter_loop-CopiedFrom :
    (remaining index : ℕ) (memory : ℕ → ℕ) (table physical_address image_size : ℕ)
    (buffer buffer' : ℕ → ℕ) (buffer_size : ℕ)
    → interpreter_loop remaining index memory table physical_address image_size buffer buffer_size
      ≡ (true, buffer')
    → CopiedFrom memory table physical_address image_size buffer buffer' buffer_size index
        (index + remaining)
unfolding interpreter_loop
interpreter_loop-CopiedFrom zero index memory table physical_address image_size buffer buffer'
      buffer_size done =
    absurd (ground (arith, ap (λ r. r.0) done))
interpreter_loop-CopiedFrom (suc remaining) index memory table physical_address image_size buffer
      buffer' buffer_size done =
    elim (Bool-cases (is_interpreter (header_at memory table index))) [
      | inl here ↦
          let step : interpreter_loop (suc remaining) index memory table physical_address image_size
                buffer buffer_size
              ≡ copy_interpreter memory physical_address image_size (header_at memory table index)
                  buffer buffer_size =
            rw (interpreter_loop, here) refl in
          let (fits, copied) =
            copy_interpreter-Copied memory physical_address image_size
              (header_at memory table index) buffer buffer' buffer_size (sym step ∙ done) in
          (
            index,
            omega arith,
            omega arith,
            here,
            (λ j from to. absurd (omega (arith, from, to))),
            fits,
            copied,
          )
      | inr other ↦
          let step : interpreter_loop (suc remaining) index memory table physical_address image_size
                buffer buffer_size
              ≡ interpreter_loop remaining (index + 1) memory table physical_address image_size
                  buffer buffer_size =
            rw (interpreter_loop, other) refl in
          let (k, from, to, here, before, fits, copied) =
            interpreter_loop-CopiedFrom remaining (index + 1) memory table physical_address
              image_size buffer buffer' buffer_size (sym step ∙ done) in
          (
            k,
            omega (arith, from),
            omega (arith, to),
            here,
            (λ j from' to'. elim (Bool-cases (j == index)) [
              | inl same ↦
                  subst (λ i. is_interpreter (header_at memory table i) ≡ false)
                    (sym ((==_iff j index).0 same)) other
              | inr later ↦ before j (ground (arith, from', later)) to'
            ]),
            fits,
            copied,
          )
    ]

-- When GetInterpreterPath succeeds, it has copied the path of the first interpreter header of the table:
-- the range of the path lies in the image, the path ends within its range, the buffer holds the path up
-- to and with its terminator, and no byte behind the buffer's end is written.
pub get_interpreter_path-CopiedFrom :
    (memory : ℕ → ℕ) (physical_address image_size : ℕ) (h : ElfHeader) (buffer_address : ℕ)
    (buffer buffer' : ℕ → ℕ) (buffer_size : ℕ)
    → get_interpreter_path memory physical_address image_size h buffer_address buffer buffer_size
      ≡ (true, buffer')
    → (validate_program_header_table h image_size ≡ true)
      × CopiedFrom memory
          (get_program_header_table physical_address h)
          physical_address
          image_size
          buffer
          buffer'
          buffer_size
          0
          h.program_header_entry_count
unfolding get_interpreter_path
get_interpreter_path-CopiedFrom memory physical_address image_size h buffer_address buffer buffer'
      buffer_size done =
    let refused : get_interpreter_path memory physical_address image_size h buffer_address buffer
            buffer_size
          ≡ (false, buffer)
        → ⊥ =
      λ e. absurd (ground (arith, ap (λ r. r.0) (sym done ∙ e))) in
    elim (Bool-cases (physical_address == 0 || buffer_address == 0 || buffer_size == 0)) [
      | inl null ↦ absurd (refused (rw (get_interpreter_path, null) refl))
      | inr set_up ↦ elim (Bool-cases (validate_program_header_table h image_size)) [
        | inr bad ↦ absurd (refused (rw (get_interpreter_path, set_up, bad) refl))
        | inl valid ↦ elim (Bool-cases (get_program_header_table physical_address h == 0)) [
          | inl null ↦ absurd (refused (rw (get_interpreter_path, set_up, valid, null) refl))
          | inr table ↦
              let step : get_interpreter_path memory physical_address image_size h buffer_address
                    buffer buffer_size
                  ≡ interpreter_loop h.program_header_entry_count 0 memory
                      (get_program_header_table physical_address h) physical_address image_size
                      buffer buffer_size =
                rw (get_interpreter_path, set_up, valid, table) refl in
              (
                valid,
                subst
                    (CopiedFrom memory (get_program_header_table physical_address h)
                      physical_address image_size buffer buffer' buffer_size 0)
                    (omega arith)
                    (interpreter_loop-CopiedFrom h.program_header_entry_count 0 memory
                      (get_program_header_table physical_address h) physical_address image_size
                      buffer buffer' buffer_size (sym step ∙ done)),
              )
        ]
      ]
    ]
