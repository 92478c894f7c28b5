-- ===== src/VirtualMemory/Ranges.antt =====
-- MapRange, ProtectRange and UnmapRange of VirtualMemoryManager.cpp.
use twisted_os_v.Common.{ℕ, zero, suc, ◌+◌, ◌-◌, Bool, ◌||◌, ltb, if◌then◌else◌}
use twisted_os_v.Common.Words.{u64_limit}
use twisted_os_v.PhysicalMemory.{page_size}
use twisted_os_v.VirtualMemory.Entries.{table_address}
use twisted_os_v.VirtualMemory.Tables.{PageMappingFlags, VirtualMemoryManager}
use twisted_os_v.VirtualMemory.Map.{map_page}
use twisted_os_v.VirtualMemory.Protect.{protect_page, unmap_page}

-- The test of the loops: the next page is past the end of the address space.
abbrev pub at_end : ℕ → Bool
at_end address = ltb (u64_limit - 1 - page_size) address

unfoldable pub map_loop :
    (pages : ℕ)
    → VirtualMemoryManager
    → (physical virtual : ℕ) → PageMappingFlags
    → ℕ × VirtualMemoryManager
map_loop zero m physical virtual flags = (virtual, m)
map_loop (suc pages) m physical virtual flags =
    let (mapped, m') = map_page m physical virtual flags in
    let further = map_loop pages m' (physical + page_size) (virtual + page_size) flags in
    if at_end physical || at_end virtual then (virtual, m') else further

unfoldable pub map_range :
    VirtualMemoryManager
    → (physical virtual pages : ℕ) → PageMappingFlags
    → ℕ × VirtualMemoryManager
map_range m physical virtual pages flags =
    map_loop pages m (table_address physical) (table_address virtual) flags

unfoldable pub protect_loop :
    (pages : ℕ)
    → VirtualMemoryManager
    → (virtual : ℕ) → (user_access writeable executable : Bool) → ℕ × VirtualMemoryManager
protect_loop zero m virtual user_access writeable executable = (virtual, m)
protect_loop (suc pages) m virtual user_access writeable executable =
    let (protected, m') = protect_page m virtual user_access writeable executable in
    let further = protect_loop pages m' (virtual + page_size) user_access writeable executable in
    if at_end virtual then (virtual, m') else further

unfoldable pub protect_range :
    VirtualMemoryManager
    → (virtual pages : ℕ) → (user_access writeable executable : Bool) → ℕ × VirtualMemoryManager
protect_range m virtual pages user_access writeable executable =
    protect_loop pages m (table_address virtual) user_access writeable executable

unfoldable pub unmap_loop :
    (pages : ℕ) → VirtualMemoryManager → (virtual : ℕ) → ℕ × VirtualMemoryManager
unmap_loop zero m virtual = (virtual, m)
unmap_loop (suc pages) m virtual =
    let (unmapped, m') = unmap_page m virtual in
    let further = unmap_loop pages m' (virtual + page_size) in
    if at_end virtual then (virtual, m') else further

unfoldable pub unmap_range : VirtualMemoryManager → (virtual pages : ℕ) → ℕ × VirtualMemoryManager
unmap_range m virtual pages = unmap_loop pages m (table_address virtual)
