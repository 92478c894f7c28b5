-- ===== src/PhysicalMemory.antt =====
-- Kernel/Memory/PhysicalMemoryManager.{hpp,cpp}: the page frames of the largest conventional
-- descriptor, handed out by a buddy allocator. The free list of an order is the list of the
-- addresses of its blocks, head first; `BuddyBlock::Next` is stored in the free pages themselves
-- and is read by nothing else. A pointer is its address, and NULL is 0.
pub mod Measure
pub mod Orders
pub mod Sound
pub mod Split
pub mod Alloc
pub mod Buddy
pub mod Free
pub mod Guards
pub mod Boot
pub mod Carve
pub mod Offers
pub mod Largest
mod Examples
use Prim.Native.Nat.{bit_xor}
use twisted_os_v.Common.{
  ℕ, zero, suc, ◌+◌, ◌-◌, ◌*◌, ◌/◌, ◌%◌, ◌^◌, Bool, true, false, not, ◌&&◌, ◌||◌, List, [], ◌∷◌,
  ltb, leb, ◌==◌, if◌then◌else◌,
}
use twisted_os_v.Common.Words.{u64}

abbrev pub page_size : ℕ
page_size = 4096

abbrev pub max_buddy_orders : ℕ
max_buddy_orders = 52

abbrev pub pmm_buddy_physical_limit : ℕ
pmm_buddy_physical_limit = 0xC000_0000

-- EfiConventionalMemory is the eighth of the EFI memory types.
abbrev pub efi_conventional_memory : ℕ
efi_conventional_memory = 7

-- The fields of EFI_MEMORY_DESCRIPTOR that the kernel reads.
pub record EfiMemoryDescriptor : Type 0 where
  pub type : ℕ
  pub physical_start : ℕ
  pub number_of_pages : ℕ

pub record MemoryDescriptor : Type 0 where
  pub physical_address_start : ℕ
  pub total_number_of_pages : ℕ
  pub number_of_free_pages : ℕ
  pub bit_map : ℕ

-- BuddyFreeLists, by order.
abbrev pub FreeLists : Type 0
FreeLists = ℕ → List ℕ

-- `memory_map` lists the MemoryMapSize / DescriptorSize entries of the firmware's map.
pub record PhysicalMemoryManager : Type 0 where
  pub memory_map : List EfiMemoryDescriptor
  pub next_page_address : ℕ
  pub current_descriptor : ℕ
  pub remaining_pages_in_descriptor : ℕ
  pub total_usable_memory : ℕ
  pub total_number_of_pages : ℕ
  pub descriptor_info : MemoryDescriptor
  pub buddy_free_lists : FreeLists
  pub buddy_max_order : ℕ

abbrev pub update : FreeLists → ℕ → List ℕ → FreeLists
update fl order blocks k = if k == order then blocks else fl k

abbrev pub is_empty : List ℕ → Bool
is_empty [] = true
is_empty (a ∷ l) = false

-- 1ULL << Order; every order is below 52.
unfoldable pub pages_for_order : ℕ → ℕ
pages_for_order order = 2 ^ order

-- The loop of FloorLog2Pages; the order stays below 52, so 52 rounds end it.
unfoldable pub floor_log2_loop : ℕ → ℕ → ℕ → ℕ
floor_log2_loop zero order pages = order
floor_log2_loop (suc rounds) order pages =
    let next = floor_log2_loop rounds (order + 1) pages in
    if ltb (order + 1) max_buddy_orders && leb (pages_for_order (order + 1)) pages
    then next
    else order

unfoldable pub floor_log2_pages : ℕ → ℕ
floor_log2_pages pages = if leb pages 1 then 0 else floor_log2_loop max_buddy_orders 0 pages

unfoldable pub ceil_log2_pages : ℕ → ℕ
ceil_log2_pages pages =
    if leb pages 1
    then 0
    else let order = floor_log2_pages pages in
      if ltb (pages_for_order order) pages && ltb (order + 1) max_buddy_orders
      then order + 1
      else order

-- `Block->Next = BuddyFreeLists[Order]; BuddyFreeLists[Order] = Block`. A block at address 0 is
-- the null pointer, so that the list reads as empty.
unfoldable pub push_block : FreeLists → ℕ → ℕ → FreeLists
push_block fl order address = update fl order (if address == 0 then [] else address ∷ fl order)

-- RemoveBlockFromFreeList: the list without the first block at the address, and whether it had one.
unfoldable pub remove_block : ℕ → List ℕ → List ℕ × Bool
remove_block address [] = ([], false)
remove_block address (a ∷ l) =
    let (rest, found) = remove_block address l in
    if a == address then (l, true) else (a ∷ rest, found)

unfoldable pub is_address_in_managed_range : PhysicalMemoryManager → ℕ → Bool
is_address_in_managed_range p address =
    leb base address && ltb address (u64 (base + u64 (total_number_of_pages * page_size)))
  where
    open p.descriptor_info use {physical_address_start as base, total_number_of_pages}

-- The search of AllocatePagesFromDescriptor for a non-empty list; `rounds` counts the orders left
-- up to BuddyMaxOrder.
unfoldable pub find_order : ℕ → ℕ → FreeLists → ℕ
find_order zero order fl = order
find_order (suc rounds) order fl =
    let next = find_order rounds (order + 1) fl in if is_empty (fl order) then next else order

-- The splitting loop: `rounds` is CurrentOrder - RequestedOrder.
unfoldable pub split_blocks : ℕ → ℕ → ℕ → FreeLists → FreeLists
split_blocks zero requested address fl = fl
split_blocks (suc rounds) requested address fl =
    let order = requested + rounds in
    let buddy = u64 (address + pages_for_order order * page_size) in
    split_blocks rounds requested address (push_block fl order buddy)

-- What AllocatePagesFromDescriptor does with the first block of the list that it found.
unfoldable pub take_block :
    PhysicalMemoryManager → (requested current : ℕ) → List ℕ → ℕ × PhysicalMemoryManager
take_block p requested current [] = (0, p)
take_block p requested current (address ∷ rest) =
    let lists =
      split_blocks (current - requested) requested address
        (update p.buddy_free_lists current rest) in
    let allocated = pages_for_order requested in
    let info = p.descriptor_info in
    if ltb info.number_of_free_pages allocated
    then (0, record p { buddy_free_lists = lists })
    else (
      address,
      record p {
        buddy_free_lists = lists;
        descriptor_info = record info {
          number_of_free_pages = info.number_of_free_pages - allocated;
        };
      },
    )

-- AllocatePagesFromDescriptor once the requested order is known to be within range.
unfoldable pub alloc_order : PhysicalMemoryManager → ℕ → ℕ × PhysicalMemoryManager
alloc_order p requested =
    let max = p.buddy_max_order in
    let current = find_order (max + 1 - requested) requested p.buddy_free_lists in
    if ltb max current then (0, p) else take_block p requested current (p.buddy_free_lists current)

unfoldable pub allocate_pages_from_descriptor :
    PhysicalMemoryManager → ℕ → ℕ × PhysicalMemoryManager
allocate_pages_from_descriptor p pages =
    if pages == 0
    then (0, p)
    else if p.descriptor_info.bit_map == 0
    then (0, p)
    else if ltb p.descriptor_info.number_of_free_pages pages
    then (0, p)
    else if ltb p.buddy_max_order (ceil_log2_pages pages)
    then (0, p)
    else alloc_order p (ceil_log2_pages pages)

-- The block that the merging loop has arrived at, and the lists without the buddies merged in.
pub record Merged : Type 0 where
  pub address : ℕ
  pub order : ℕ
  pub lists : FreeLists

-- The address of the buddy of the block of an order at an address.
unfoldable pub buddy_index : (base address order : ℕ) → ℕ
buddy_index base address order = bit_xor ((address - base) / page_size) (pages_for_order order)

-- The merging loop of FreePagesFromDescriptor: `rounds` is BuddyMaxOrder - CurrentOrder.
unfoldable pub merge_buddies : (base total : ℕ) → ℕ → Merged → Merged
merge_buddies base total zero m = m
merge_buddies base total (suc rounds) m =
    let index = buddy_index base m.address m.order in
    let buddy = u64 (base + u64 (index * page_size)) in
    let (rest, found) = remove_block buddy (m.lists m.order) in
    let next = merge_buddies base total rounds (record {
      address = if ltb buddy m.address then buddy else m.address;
      order = m.order + 1;
      lists = update m.lists m.order rest;
    }) in
    if ltb total (u64 (index + pages_for_order m.order)) then m else if found then next else m

-- FreePagesFromDescriptor behind its guards.
unfoldable pub free_order : PhysicalMemoryManager → ℕ → ℕ → PhysicalMemoryManager
free_order p address order =
    let info = p.descriptor_info in
    let total = info.total_number_of_pages in
    let m =
      merge_buddies info.physical_address_start total (p.buddy_max_order - order)
        (record { address = address; order = order; lists = p.buddy_free_lists }) in
    let free = u64 (info.number_of_free_pages + pages_for_order order) in
    record p {
      buddy_free_lists = push_block m.lists m.order m.address;
      descriptor_info = record info {
        number_of_free_pages = if ltb total free then total else free;
      };
    }

unfoldable pub free_pages_from_descriptor :
    PhysicalMemoryManager → (address pages : ℕ) → Bool × PhysicalMemoryManager
free_pages_from_descriptor p address pages =
    let info = p.descriptor_info in
    let base = info.physical_address_start in
    let order = ceil_log2_pages pages in
    let block_pages = pages_for_order order in
    let start_page = (address - base) / page_size in
    if address == 0 || pages == 0
    then (false, p)
    else if info.bit_map == 0
    then (false, p)
    else if not (is_address_in_managed_range p address)
    then (false, p)
    else if not ((address - base) % page_size == 0)
    then (false, p)
    else if ltb p.buddy_max_order order
    then (false, p)
    else if ltb info.total_number_of_pages (u64 (start_page + block_pages))
    then (false, p)
    else if not (start_page % block_pages == 0)
    then (false, p)
    else (true, free_order p address order)
