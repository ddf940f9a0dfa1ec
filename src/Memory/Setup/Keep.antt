-- ===== src/Memory/Setup/Keep.antt =====
-- That the page tables which kmemory_linear_setup of arch/ia32/memory.c builds lie behind what setup of
-- arch/ia32/init.c found in use.
use Prim.Native.Nat.{bit_or}
use rjk.Base.{
  ℕ, zero, suc, ◌+◌, ◌*◌, ◌/◌, ◌%◌, ◌^◌, ◌<◌, ◌≤◌, ◌≡◌, refl, ◌∙◌, false, u32, arith, update,
  update_ne,
}
use rjk.Memory.{Memory, linear_allocated}
use rjk.Memory.Virtual.{clear_pages}
use rjk.Memory.Virtual.Table.{within, clear_pages-words}
use rjk.Memory.Setup.{page_behind, available_loop, tables_loop, build_tables}
use rjk.Memory.Setup.Tables.{available_loop-before}

pub clear_pages-below :
    (m : Memory) (address w : ℕ)
    → address % 4 ≡ 0
    → address + 4096 < 2 ^ 32
    → w < address / 4
    → (clear_pages m address 1).words w ≡ m.words w
clear_pages-below m address w aligned small below =
    let out : within (address / 4) (1 * 1024) w ≡ false = ground arith in
    clear_pages-words m address 1 aligned (omega arith) w ∙ rw out refl

pub clear_pages-directory :
    (m : Memory) (address count : ℕ)
    → (clear_pages m address count).linear_directory ≡ m.linear_directory
unfolding clear_pages
clear_pages-directory m address count = refl

pub tables_loop-below :
    (rounds : ℕ) (m : Memory) (i1 linear_address mem mem_upper w : ℕ)
    → linear_address % 4096 ≡ 0
    → linear_address + rounds * 4096 < 2 ^ 32
    → w < m.linear_directory / 4
    → w < linear_address / 4
    → (tables_loop rounds m i1 linear_address mem mem_upper).0.words w ≡ m.words w
unfolding tables_loop
tables_loop-below zero m i1 linear_address mem mem_upper w aligned small d la = refl
tables_loop-below (suc rounds) m i1 linear_address mem mem_upper w aligned small d la =
    let m1 = clear_pages m linear_address 1 in
    let entry = bit_or linear_address linear_allocated in
    let entered = update m1.words (m1.linear_directory / 4 + i1) entry in
    let r = available_loop 1024 entered linear_address 0 mem mem_upper in
    let next : u32 (linear_address + 4096) ≡ linear_address + 4096 = omega arith in
    let cleared = clear_pages-below m linear_address w (omega arith) (omega arith) la in
    let same = clear_pages-directory m linear_address 1 in
    let rest =
      tables_loop-below rounds (record m1 { words = r.0 }) (i1 + 1) (u32 (linear_address + 4096))
        r.1 mem_upper w (omega arith) (omega arith) (rw same d) (omega arith) in
    rest
    ∙ available_loop-before 1024 linear_address 0 mem mem_upper entered w (omega arith)
    ∙ update_ne m1.words (m1.linear_directory / 4 + i1) w entry (omega (arith, same))
    ∙ cleared

-- The directory and the tables that kmemory_linear_setup builds, when they fit below 4 GB, leave every
-- word that starts below kernel_max as it was.
pub build_tables-below :
    (m : Memory) (mem_upper kernel_max w : ℕ)
    → 4 * w < kernel_max
    → kernel_max + (mem_upper / 2 ^ 22 + 3) * 4096 < 2 ^ 32
    → (build_tables m mem_upper kernel_max).0.words w ≡ m.words w
unfolding build_tables
build_tables-below m mem_upper kernel_max w below small =
    let tables = mem_upper / 2 ^ 22 + 1 in
    let directory = page_behind kernel_max in
    let m0 = record m { linear_directory = directory } in
    let same = clear_pages-directory m0 directory 1 in
    let aligned : directory % 4096 ≡ 0 = omega arith in
    let above : kernel_max ≤ directory = omega arith in
    let under : directory < kernel_max + 4096 = omega arith in
    let rest =
      tables_loop-below tables (clear_pages m0 directory 1) 0 (u32 (directory + 4096)) 0 mem_upper w
        (omega arith) (omega arith) (rw same (omega arith)) (omega arith) in
    rest ∙ clear_pages-below m0 directory w (omega arith) (omega arith) (omega arith)
