-- ===== src/Rwlock.antt =====
-- arch/ia32/rwlock.c: a read/write lock in one 32-bit word. Bits 0..14 count the readers inside,
-- bit 15 says that a writer has come, bits 16..30 count the writers inside, and bit 31 is the
-- spinlock. The `kint16` at the word's address is its low half.
-- What a function does between `kspinlock_lock` and `kspinlock_unlock` is one step: the spinlock
-- excludes every other thread meanwhile.
pub mod Threads
pub mod Sections
pub mod Counts
pub mod Solo
pub mod Races
mod Examples
use rjk.Base.{
  ℕ, ◌+◌, ◌-◌, ◌*◌, ◌/◌, ◌%◌, ◌^◌, Bool, true, false, ◌&&◌, if◌then◌else◌, ltb, ◌==◌, sub32, u32,
  test_bit, set_bit, clear_bit,
}
use rjk.Spinlock.{kspinlock_try, kspinlock_unlock}

-- `*((kint16*)lock)`, as a bit pattern, and a store to it.
abbrev pub low_half : ℕ → ℕ
low_half w = w % 2 ^ 16

abbrev pub with_low_half : ℕ → ℕ → ℕ
with_low_half w v = w / 2 ^ 16 * 2 ^ 16 + v % 2 ^ 16

-- `> 0` of a `kint16`
abbrev pub is_positive16 : ℕ → Bool
is_positive16 v = ltb 0 v && ltb v (2 ^ 15)

-- A section: take the spinlock, run the body, release it.
abbrev pub section : (ℕ → Bool × ℕ) → ℕ → Bool × ℕ
section body w = let (done, w') = body (kspinlock_try w).1 in (done, kspinlock_unlock w')

-- One round of `krwlock_read_lock`: does the reader get in, and the word after.
unfoldable pub read_round : ℕ → Bool × ℕ
read_round w =
    let w' = with_low_half w (low_half w + 1) in
    if is_positive16 (low_half w')
    then (true, w')
    else (false, with_low_half w' (low_half w' + 2 ^ 16 - 1))

unfoldable pub krwlock_read_lock_round : ℕ → Bool × ℕ
unfolding read_round
krwlock_read_lock_round = section read_round

unfoldable pub read_unlock_body : ℕ → Bool × ℕ
read_unlock_body w = (true, with_low_half w (low_half w + 2 ^ 16 - 1))

unfoldable pub krwlock_read_unlock : ℕ → ℕ
unfolding read_unlock_body
krwlock_read_unlock w = (section read_unlock_body w).1

-- `*lock & 0x7FFF7FFF`, `& 0x00007FFF` and `& 0x7FFF0000`
abbrev pub mask_both : ℕ → ℕ
mask_both w = w / 2 ^ 16 % 2 ^ 15 * 2 ^ 16 + w % 2 ^ 15

abbrev pub mask_readers : ℕ → ℕ
mask_readers w = w % 2 ^ 15

abbrev pub mask_writers : ℕ → ℕ
mask_writers w = w / 2 ^ 16 % 2 ^ 15 * 2 ^ 16

-- One test of the loop of `krwlock_write_lock`, and the count if it passes. A writer that found
-- bit 15 set waits for readers and writers, one that set it waits for readers.
unfoldable pub write_round : Bool → ℕ → Bool × ℕ
write_round found w =
    if (if found then mask_both w else mask_readers w) == 0
    then (true, u32 (w + 0x00010000))
    else (false, w)

-- The start of `krwlock_write_lock`: the old bit 15, and the first test.
unfoldable pub write_arrive : ℕ → Bool × ℕ
unfolding write_round
write_arrive w = write_round (test_bit w 15) (set_bit w 15)

unfoldable pub krwlock_write_lock_arrive : ℕ → Bool × ℕ
unfolding write_arrive
krwlock_write_lock_arrive = section write_arrive

unfoldable pub krwlock_write_lock_round : Bool → ℕ → Bool × ℕ
unfolding write_round
krwlock_write_lock_round found = section (write_round found)

unfoldable pub write_unlock_body : ℕ → Bool × ℕ
write_unlock_body w =
    let w' = sub32 w 0x00010000 in (true, if mask_writers w' == 0 then clear_bit w' 15 else w')

unfoldable pub krwlock_write_unlock : ℕ → ℕ
unfolding write_unlock_body
krwlock_write_unlock w = (section write_unlock_body w).1
