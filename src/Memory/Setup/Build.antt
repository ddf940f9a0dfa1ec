-- ===== src/Memory/Setup/Build.antt =====
-- What the directory and the tables that kmemory_linear_setup of arch/ia32/memory.c builds hold.
use Prim.Native.Nat.{max, bit_or, digits, bit_or-bitwise}
use rjk.Base.{
  ℕ, zero, suc, ◌+◌, ◌*◌, ◌/◌, ◌%◌, ◌^◌, ◌<◌, ◌≤◌, ◌≡◌, ◌≢◌, refl, ◌∙◌, ◌⊎◌, inl, inr, true, leb,
  ltb, ◌||◌, ◌==◌, Bool-cases, u32, arith, update, update_ne, update_self,
}
use rjk.Memory.{Memory, linear_allocated}
use rjk.Memory.Virtual.{clear_pages}
use rjk.Memory.Setup.{available_loop, tables_loop, linear_available}
use rjk.Memory.Setup.Tables.{available_loop-before, available_loop_lem}
use rjk.Memory.Setup.Keep.{clear_pages-below, clear_pages-directory}

-- The law of bit_or for the lowest digit.
abbrev or_digits : ℕ → ℕ → ℕ → ℕ
or_digits n a b = digits (λ b. b) max n a b

or_digits_fuel : (n m a b : ℕ) → a ≤ n → a ≤ m → or_digits n a b ≡ or_digits m a b
or_digits_fuel zero zero a b p q = refl
or_digits_fuel zero (suc m) zero b p q = refl
or_digits_fuel zero (suc m) (suc a) b p q = absurd (omega arith)
or_digits_fuel (suc n) zero zero b p q = refl
or_digits_fuel (suc n) zero (suc a) b p q = absurd (omega arith)
or_digits_fuel (suc n) (suc m) zero b p q = refl
or_digits_fuel (suc n) (suc m) (suc a) b p q =
    omega (arith, or_digits_fuel n m (suc a / 2) (b / 2) (omega arith) (omega arith))

zero-bit_or : (b : ℕ) → bit_or 0 b ≡ b
zero-bit_or b = bit_or-bitwise 0 b

bit_or_step : (a b : ℕ) → bit_or a b ≡ bit_or (a / 2) (b / 2) * 2 + max (a % 2) (b % 2)
bit_or_step zero b = omega (arith, zero-bit_or b, zero-bit_or (b / 2))
bit_or_step (suc a) b = omega (
  arith,
  bit_or-bitwise (suc a) b,
  bit_or-bitwise (suc a / 2) (b / 2),
  or_digits_fuel a (suc a / 2) (suc a / 2) (b / 2) (omega arith) (omega arith),
)

bit_or-zero_fuel : (n a : ℕ) → a ≤ n → bit_or a 0 ≡ a
bit_or-zero_fuel n zero h = refl
bit_or-zero_fuel zero (suc a) h = absurd (omega arith)
bit_or-zero_fuel (suc n) (suc a) h =
    omega (arith, bit_or_step (suc a) 0, bit_or-zero_fuel n (suc a / 2) (omega arith))

even-step : (a b : ℕ) → a % 2 ≡ 0 → b % 2 ≡ 0 → bit_or a b ≡ bit_or (a / 2) (b / 2) * 2
even-step a b h k = omega (arith, bit_or_step a b)

bit_or-one : (a : ℕ) → a % 2 ≡ 0 → bit_or a 1 ≡ a + 1
bit_or-one a h = omega (arith, bit_or_step a 1, bit_or-zero_fuel (a / 2) (a / 2) (omega arith))

-- The address of a page with LINEAR_ALLOCATED.
pub bit_or-page : (a : ℕ) → a % 4096 ≡ 0 → bit_or a linear_allocated ≡ a + 256
bit_or-page a h = omega (
  arith,
  even-step a 256 (omega arith) (omega arith),
  even-step (a / 2) 128 (omega arith) (omega arith),
  even-step (a / 2 / 2) 64 (omega arith) (omega arith),
  even-step (a / 2 / 2 / 2) 32 (omega arith) (omega arith),
  even-step (a / 2 / 2 / 2 / 2) 16 (omega arith) (omega arith),
  even-step (a / 2 / 2 / 2 / 2 / 2) 8 (omega arith) (omega arith),
  even-step (a / 2 / 2 / 2 / 2 / 2 / 2) 4 (omega arith) (omega arith),
  even-step (a / 2 / 2 / 2 / 2 / 2 / 2 / 2) 2 (omega arith) (omega arith),
  bit_or-one (a / 2 / 2 / 2 / 2 / 2 / 2 / 2 / 2) (omega arith),
)

-- `mem` behind a table whose pages all lie below mem_upper.
available_loop-mem :
    (rounds pt i2 mem mem_upper : ℕ) (m : ℕ → ℕ)
    → mem + rounds * 4096 ≤ mem_upper
    → mem_upper < 2 ^ 32
    → (available_loop rounds m pt i2 mem mem_upper).1 ≡ mem + rounds * 4096
unfolding available_loop
available_loop-mem zero pt i2 mem mem_upper m h small = omega arith
available_loop-mem (suc rounds) pt i2 mem mem_upper m h small =
    let next : u32 (mem + 4096) ≡ mem + 4096 = omega arith in
    let marked = update m (pt / 4 + i2) linear_available in
    elim (Bool-cases (leb mem_upper (mem + 4096))) [
      | inl e ↦ rw (next, e) (ground (arith, e))
      | inr e ↦
          rw (next, e)
            (available_loop-mem rounds pt (i2 + 1) (mem + 4096) mem_upper marked (omega arith) small
              ∙ omega arith)
    ]

pub tables_loop-keeps :
    (rounds : ℕ) (m : Memory) (i1 linear_address mem mem_upper w : ℕ)
    → linear_address % 4096 ≡ 0
    → linear_address + rounds * 4096 < 2 ^ 32
    → w < linear_address / 4
    → (w < m.linear_directory / 4 + i1) ⊎ (m.linear_directory / 4 + i1 + rounds ≤ w)
    → (tables_loop rounds m i1 linear_address mem mem_upper).0.words w ≡ m.words w
unfolding tables_loop
tables_loop-keeps zero m i1 linear_address mem mem_upper w aligned small la out = refl
tables_loop-keeps (suc rounds) m i1 linear_address mem mem_upper w aligned small la out =
    let m1 = clear_pages m linear_address 1 in
    let entry = bit_or linear_address linear_allocated in
    let entered = update m1.words (m1.linear_directory / 4 + i1) entry in
    let r = available_loop 1024 entered linear_address 0 mem mem_upper in
    let same = clear_pages-directory m linear_address 1 in
    let ne : w ≢ m1.linear_directory / 4 + i1 = rw same (ground (arith, out)) in
    let out' : (w < m1.linear_directory / 4 + (i1 + 1))
        ⊎ (m1.linear_directory / 4 + (i1 + 1) + rounds ≤ w) =
      rw same (ground (arith, out)) in
    let rest =
      tables_loop-keeps rounds (record m1 { words = r.0 }) (i1 + 1) (u32 (linear_address + 4096))
        r.1 mem_upper w (omega arith) (omega arith) (omega arith) out' in
    rest
    ∙ available_loop-before 1024 linear_address 0 mem mem_upper entered w (omega arith)
    ∙ update_ne m1.words (m1.linear_directory / 4 + i1) w entry ne
    ∙ clear_pages-below m linear_address w (omega arith) (omega arith) la

-- One round of the loop: the memory, and `mem`.
abbrev pub round_of : Memory → (i1 linear_address mem mem_upper : ℕ) → Memory × ℕ
round_of m i1 linear_address mem mem_upper =
    let m1 = clear_pages m linear_address 1 in
    let entered =
      update m1.words (m1.linear_directory / 4 + i1) (bit_or linear_address linear_allocated) in
    let r = available_loop 1024 entered linear_address 0 mem mem_upper in
    (record m1 { words = r.0 }, r.1)

-- The memory while the tables from i1 on are still to be built.
pub record IsBuilding (m : Memory) (d i1 linear_address : ℕ) : Type 0 where
  pub at : m.linear_directory ≡ d
  pub aligned : d % 4096 ≡ 0
  pub address : linear_address ≡ d + (i1 + 1) * 4096

pub round-entry :
    (m : Memory) (d i1 linear_address mem mem_upper : ℕ)
    → IsBuilding m d i1 linear_address
    → i1 < 1024
    → linear_address + 4096 < 2 ^ 32
    → (round_of m i1 linear_address mem mem_upper).0.words (d / 4 + i1) ≡ linear_address + 256
round-entry m d i1 linear_address mem mem_upper b lt small =
    let m1 = clear_pages m linear_address 1 in
    let entry = bit_or linear_address linear_allocated in
    let entered = update m1.words (m1.linear_directory / 4 + i1) entry in
    let same : m1.linear_directory ≡ d = clear_pages-directory m linear_address 1 ∙ b.at in
    let page : linear_address % 4096 ≡ 0 = omega (arith, b.aligned, b.address) in
    available_loop-before 1024 linear_address 0 mem mem_upper entered (d / 4 + i1)
      (omega (arith, b.aligned, b.address))
    ∙ rw same (update_self m1.words (d / 4 + i1) entry)
    ∙ bit_or-page linear_address page

pub round-available :
    (m : Memory) (d i1 linear_address mem_upper j : ℕ)
    → IsBuilding m d i1 linear_address
    → linear_address + 4096 < 2 ^ 32
    → i1 * 2 ^ 22 + 2 ^ 22 < 2 ^ 32
    → j < 1024
    → i1 * 2 ^ 22 + j * 4096 < mem_upper
    → (round_of m i1 linear_address (i1 * 2 ^ 22) mem_upper).0.words (linear_address / 4 + j)
      ≡ linear_available
round-available m d i1 linear_address mem_upper j b small low lt below =
    let m1 = clear_pages m linear_address 1 in
    let entered =
      update m1.words (m1.linear_directory / 4 + i1) (bit_or linear_address linear_allocated) in
    let yes_it_is : ((j == 0) || ltb (i1 * 2 ^ 22 + j * 4096) mem_upper) ≡ true = ground arith in
    available_loop_lem linear_address (i1 * 2 ^ 22) mem_upper j entered (omega arith) lt
    ∙ rw yes_it_is refl

pub round-mem :
    (m : Memory) (i1 linear_address mem mem_upper : ℕ)
    → mem + 2 ^ 22 ≤ mem_upper
    → mem_upper < 2 ^ 32
    → (round_of m i1 linear_address mem mem_upper).1 ≡ mem + 2 ^ 22
round-mem m i1 linear_address mem mem_upper h small =
    let m1 = clear_pages m linear_address 1 in
    let entered =
      update m1.words (m1.linear_directory / 4 + i1) (bit_or linear_address linear_allocated) in
    available_loop-mem 1024 linear_address 0 mem mem_upper entered (omega arith) small ∙ omega arith
