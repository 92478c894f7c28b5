-- ===== src/Elf.antt =====
-- Kernel/Layers/Logic/ELFManager.cpp and ELFManager.hpp: the headers of a program image, their checks,
-- and the copy of the interpreter's path. `memory` gives the byte at an address; a buffer is a function
-- from an index to its byte.
pub mod Ranges
pub mod Interpreter
mod Examples
use twisted_os_v.Common.{
  ℕ, zero, suc, ◌+◌, ◌-◌, ◌*◌, ◌/◌, ◌%◌, Bool, true, false, ◌&&◌, ◌||◌, not, ◌==◌, ltb, leb,
  if◌then◌else◌,
}
use twisted_os_v.Common.Words.{u64}

-- Padding is left out: no code reads it.
pub record ElfHeader : Type 0 where
  pub magic_0 : ℕ
  pub magic_1 : ℕ
  pub magic_2 : ℕ
  pub magic_3 : ℕ
  pub class : ℕ
  pub data_encoding : ℕ
  pub identifier_version : ℕ
  pub os_abi : ℕ
  pub abi_version : ℕ
  pub type : ℕ
  pub machine : ℕ
  pub version : ℕ
  pub entry : ℕ
  pub program_header_offset : ℕ
  pub section_header_offset : ℕ
  pub flags : ℕ
  pub header_size : ℕ
  pub program_header_entry_size : ℕ
  pub program_header_entry_count : ℕ
  pub section_header_entry_size : ℕ
  pub section_header_entry_count : ℕ
  pub section_header_name_index : ℕ

pub record ElfProgramHeader : Type 0 where
  pub type : ℕ
  pub flags : ℕ
  pub offset : ℕ
  pub virtual_address : ℕ
  pub physical_address : ℕ
  pub file_size : ℕ
  pub memory_size : ℕ
  pub align : ℕ

-- A little-endian number of so many bytes.
unfoldable pub read : (ℕ → ℕ) → (bytes address : ℕ) → ℕ
read memory zero address = 0
read memory (suc bytes) address = memory address + 256 * read memory bytes (u64 (address + 1))

unfoldable pub parse_elf : (ℕ → ℕ) → (physical_address : ℕ) → ElfHeader
parse_elf memory physical_address =
    let field : ℕ → ℕ → ℕ = λ bytes offset.
      if physical_address == 0 then 0 else read memory bytes (u64 (physical_address + offset)) in
    record {
      magic_0 = field 1 0;
      magic_1 = field 1 1;
      magic_2 = field 1 2;
      magic_3 = field 1 3;
      class = field 1 4;
      data_encoding = field 1 5;
      identifier_version = field 1 6;
      os_abi = field 1 7;
      abi_version = field 1 8;
      type = field 2 16;
      machine = field 2 18;
      version = field 4 20;
      entry = field 8 24;
      program_header_offset = field 8 32;
      section_header_offset = field 8 40;
      flags = field 4 48;
      header_size = field 2 52;
      program_header_entry_size = field 2 54;
      program_header_entry_count = field 2 56;
      section_header_entry_size = field 2 58;
      section_header_entry_count = field 2 60;
      section_header_name_index = field 2 62;
    }

unfoldable pub read_program_header : (ℕ → ℕ) → ℕ → ElfProgramHeader
read_program_header memory address =
    let field : ℕ → ℕ → ℕ = λ bytes offset. read memory bytes (u64 (address + offset)) in
    record {
      type = field 4 0;
      flags = field 4 4;
      offset = field 8 8;
      virtual_address = field 8 16;
      physical_address = field 8 24;
      file_size = field 8 32;
      memory_size = field 8 40;
      align = field 8 48;
    }

unfoldable pub range_fits_in_image : (offset size image_size : ℕ) → Bool
range_fits_in_image offset size image_size = leb offset image_size && leb size (image_size - offset)

unfoldable pub validate_elf : ElfHeader → Bool
validate_elf h = h.magic_0 == 0x7F && h.magic_1 == 0x45 && h.magic_2 == 0x4C && h.magic_3 == 0x46

unfoldable pub validate_elf_64 : ElfHeader → Bool
validate_elf_64 h = validate_elf h && h.class == 2 && h.data_encoding == 1 && h.version == 1

abbrev pub program_header_size : ℕ
program_header_size = 56

unfoldable pub validate_program_header_table : ElfHeader → ℕ → Bool
validate_program_header_table h image_size =
    let table_size = u64 (h.program_header_entry_count * h.program_header_entry_size) in
    if not (validate_elf_64 h)
      || h.program_header_entry_count == 0
      || not (h.program_header_entry_size == program_header_size)
    then false
    else range_fits_in_image h.program_header_offset table_size image_size

unfoldable pub get_program_header_table : (physical_address : ℕ) → ElfHeader → ℕ
get_program_header_table physical_address h =
    if physical_address == 0 then 0 else u64 (physical_address + h.program_header_offset)

unfoldable pub is_dynamic_image : ElfHeader → Bool
is_dynamic_image h = h.type == 3

-- The scan for the terminator in GetInterpreterPath, from an index on.
unfoldable pub is_null_terminated : (remaining index : ℕ) → (ℕ → ℕ) → Bool
is_null_terminated zero index path = false
is_null_terminated (suc remaining) index path =
    let further = is_null_terminated remaining (index + 1) path in
    if path index == 0 then true else further

-- A write to a buffer, and the copying loop of GetInterpreterPath.
abbrev pub write_byte : (ℕ → ℕ) → ℕ → ℕ → ℕ → ℕ
write_byte buffer index byte i = if i == index then byte else buffer i

unfoldable pub copy_bytes : ℕ → (path buffer : ℕ → ℕ) → ℕ → ℕ
copy_bytes zero path buffer = buffer
copy_bytes (suc size) path buffer = write_byte (copy_bytes size path buffer) size (path size)

-- What GetInterpreterPath does with the program header that it stops at.
unfoldable pub copy_interpreter :
    (ℕ → ℕ) → (physical_address image_size : ℕ) → ElfProgramHeader → (ℕ → ℕ) → ℕ → Bool × (ℕ → ℕ)
copy_interpreter memory physical_address image_size ph buffer buffer_size =
    let path : ℕ → ℕ = λ i. memory (u64 (u64 (physical_address + ph.offset) + i)) in
    if not (range_fits_in_image ph.offset ph.file_size image_size)
    then (false, buffer)
    else if ltb buffer_size ph.file_size
    then (false, buffer)
    else if not (is_null_terminated ph.file_size 0 path)
    then (false, buffer)
    else (true, write_byte (copy_bytes ph.file_size path buffer) (buffer_size - 1) 0)

abbrev pub is_interpreter : ElfProgramHeader → Bool
is_interpreter ph = not (not (ph.type == 3) || ph.file_size == 0)

-- The loop of GetInterpreterPath over the program headers, from an index on.
unfoldable pub interpreter_loop :
    (remaining index : ℕ)
    → (ℕ → ℕ)
    → (table physical_address image_size : ℕ) → (ℕ → ℕ)
    → ℕ
    → Bool × (ℕ → ℕ)
interpreter_loop zero index memory table physical_address image_size buffer buffer_size =
    (false, buffer)
interpreter_loop (suc remaining) index memory table physical_address image_size buffer buffer_size =
    let further =
      interpreter_loop remaining (index + 1) memory table physical_address image_size buffer
        buffer_size in
    let ph = read_program_header memory (u64 (table + index * program_header_size)) in
    if not (is_interpreter ph)
    then further
    else copy_interpreter memory physical_address image_size ph buffer buffer_size

-- `buffer_address` is the address of the buffer, which may be nullptr.
unfoldable pub get_interpreter_path :
    (ℕ → ℕ)
    → (physical_address image_size : ℕ) → ElfHeader
    → (buffer_address : ℕ) → (ℕ → ℕ)
    → (buffer_size : ℕ) → Bool × (ℕ → ℕ)
get_interpreter_path memory physical_address image_size h buffer_address buffer buffer_size =
    let table = get_program_header_table physical_address h in
    if physical_address == 0 || buffer_address == 0 || buffer_size == 0
    then (false, buffer)
    else if not (validate_program_header_table h image_size)
    then (false, buffer)
    else if table == 0
    then (false, buffer)
    else interpreter_loop h.program_header_entry_count 0 memory table physical_address image_size
        buffer buffer_size

unfoldable pub is_loadable_segment : ElfProgramHeader → Bool
is_loadable_segment ph = ph.type == 1 && not (ph.memory_size == 0)

-- The flag of value 2 is the second bit.
unfoldable pub is_writable_segment : ElfProgramHeader → Bool
is_writable_segment ph = not (ph.flags / 2 % 2 == 0)

unfoldable pub validate_program_segment : ElfProgramHeader → ℕ → Bool
validate_program_segment ph image_size =
    not (ph.memory_size == 0)
    && leb ph.file_size ph.memory_size
    && range_fits_in_image ph.offset ph.file_size image_size
