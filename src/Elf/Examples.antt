-- ===== src/Elf/Examples.antt =====
-- An image at 4096 whose only program header names the interpreter `/x`, and the theorems at it.
use twisted_os_v.Common.{ℕ, ◌+◌, ◌≤◌, ◌<◌, ◌≡◌, ◌↔◌, refl, true, arith, ◌==◌, if◌then◌else◌}
use twisted_os_v.Elf.{
  ElfHeader, ElfProgramHeader, read, read_program_header, range_fits_in_image, validate_elf,
  validate_elf_64, validate_program_header_table, get_program_header_table, is_null_terminated,
  copy_bytes, copy_interpreter, interpreter_loop, get_interpreter_path, validate_program_segment,
}
use twisted_os_v.Elf.Ranges.{
  validate_program_segment_iff, validate_program_header_table_iff, HeadersInside,
}
use twisted_os_v.Elf.Interpreter.{CopiedFrom, get_interpreter_path-CopiedFrom}

abbrev header : ElfHeader
header = record {
  magic_0 = 0x7F;
  magic_1 = 0x45;
  magic_2 = 0x4C;
  magic_3 = 0x46;
  class = 2;
  data_encoding = 1;
  identifier_version = 1;
  os_abi = 0;
  abi_version = 0;
  type = 3;
  machine = 62;
  version = 1;
  entry = 4096;
  program_header_offset = 64;
  section_header_offset = 0;
  flags = 0;
  header_size = 64;
  program_header_entry_size = 56;
  program_header_entry_count = 1;
  section_header_entry_size = 0;
  section_header_entry_count = 0;
  section_header_name_index = 0;
}

abbrev image : ℕ → ℕ
image a =
    if a == 4160
    then 3
    else if a == 4168
    then 120
    else if a == 4192
    then 3
    else if a == 4216
    then 47
    else if a == 4217
    then 120
    else 0

abbrev path_buffer : ℕ → ℕ
path_buffer = (get_interpreter_path image 4096 256 header 8192 (λ i. 1) 8).1

found_path : get_interpreter_path image 4096 256 header 8192 (λ i. 1) 8 ≡ (true, path_buffer)
unfolding read read_program_header range_fits_in_image validate_elf validate_elf_64
    validate_program_header_table get_program_header_table is_null_terminated copy_bytes
    copy_interpreter interpreter_loop get_interpreter_path
found_path = refl

get_interpreter_path-CopiedFrom_example :
    (validate_program_header_table header 256 ≡ true)
    × CopiedFrom image (get_program_header_table 4096 header) 4096 256 (λ i. 1) path_buffer 8 0 1
get_interpreter_path-CopiedFrom_example =
    get_interpreter_path-CopiedFrom image 4096 256 header 8192 (λ i. 1) path_buffer 8 found_path

valid_table : validate_program_header_table header 256 ≡ true
unfolding validate_program_header_table validate_elf validate_elf_64 range_fits_in_image
valid_table = refl

validate_program_header_table_iff_example : (validate_program_header_table header 256 ≡ true) ↔ (
    (validate_elf_64 header ≡ true)
    × (0 < header.program_header_entry_count)
    × (header.program_header_entry_size ≡ 56)
    × HeadersInside header 256)
validate_program_header_table_iff_example =
    validate_program_header_table_iff header 256 (omega arith)

abbrev segment : ElfProgramHeader
segment = record {
  type = 1;
  flags = 6;
  offset = 16;
  virtual_address = 4096;
  physical_address = 4096;
  file_size = 32;
  memory_size = 64;
  align = 4096;
}

validate_program_segment_iff_example :
    (validate_program_segment segment 256 ≡ true) ↔ ((0 < 64) × (32 ≤ 64) × (16 + 32 ≤ 256))
validate_program_segment_iff_example = validate_program_segment_iff segment 256
