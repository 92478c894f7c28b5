-- ===== src/Elf/Ranges.antt =====
-- The bounds that the checks of ELFManager.cpp give.
use twisted_os_v.Common.{ℕ, ◌+◌, ◌-◌, ◌*◌, ◌≤◌, ◌<◌, ◌≡◌, ◌↔◌, true, arith}
use twisted_os_v.Common.Words.{u64, u64_of_lt}
use twisted_os_v.Elf.{
  ElfHeader, ElfProgramHeader, range_fits_in_image, validate_elf_64, validate_program_header_table,
  validate_program_segment, program_header_size,
}

-- RangeFitsInImage holds exactly if the end of the range, which cannot wrap, is within the image.
pub range_fits_in_image_iff :
    (offset size image_size : ℕ)
    → (range_fits_in_image offset size image_size ≡ true) ↔ (offset + size ≤ image_size)
unfolding range_fits_in_image
range_fits_in_image_iff offset size image_size = (λ h. ground (arith, h), λ h. ground (arith, h))

-- ValidateProgramSegment accepts exactly the segments that take up memory, are no longer in the file
-- than in memory, and lie in the image.
pub validate_program_segment_iff :
    (ph : ElfProgramHeader) (image_size : ℕ)
    → (validate_program_segment ph image_size ≡ true) ↔ (
        (0 < ph.memory_size)
        × (ph.file_size ≤ ph.memory_size)
        × (ph.offset + ph.file_size ≤ image_size))
unfolding validate_program_segment range_fits_in_image
validate_program_segment_iff ph image_size = (
  λ h. (ground (arith, h), ground (arith, h), ground (arith, h)),
  λ (a, b, c). ground (arith, a, b, c),
)

-- Every program header of a table lies in the image in full.
abbrev pub HeadersInside : ElfHeader → ℕ → Type 0
HeadersInside h image_size =
    (index : ℕ)
    → index < h.program_header_entry_count
    → h.program_header_offset + index * program_header_size + program_header_size ≤ image_size

-- ValidateProgramHeaderTable accepts a header with a 16-bit count exactly if it is a valid 64-bit
-- header, there is a program header, the headers have the size of ELFProgramHeader64, and each lies in
-- the image in full.
pub validate_program_header_table_iff :
    (h : ElfHeader) (image_size : ℕ)
    → h.program_header_entry_count < 65536
    → (validate_program_header_table h image_size ≡ true) ↔ (
        (validate_elf_64 h ≡ true)
        × (0 < h.program_header_entry_count)
        × (h.program_header_entry_size ≡ program_header_size)
        × HeadersInside h image_size)
unfolding validate_program_header_table range_fits_in_image
validate_program_header_table_iff h image_size narrow =
    let count = h.program_header_entry_count in
    let table : h.program_header_entry_size ≡ program_header_size
        → u64 (count * h.program_header_entry_size) ≡ count * program_header_size =
      λ e. rw e (u64_of_lt (count * program_header_size) (omega arith)) in
    (
      λ valid.
          let e : h.program_header_entry_size ≡ program_header_size = ground (arith, valid) in
          let fits : h.program_header_offset + u64 (count * h.program_header_entry_size)
              ≤ image_size =
            ground (arith, valid) in
          let size = table e in
          (
            ground (arith, valid),
            ground (arith, valid),
            e,
            λ index inside. omega (arith, fits, size),
          ),
      λ (elf, some_headers, e, inside).
          let last = inside (count - 1) (omega (arith, some_headers)) in
          let size = table e in ground (arith, elf, some_headers, e, last, size),
    )
