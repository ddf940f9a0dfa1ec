-- ===== src/Rwlock/Sections.antt =====
-- The sections of arch/ia32/rwlock.c on a word given by its fields.
use rjk.Base.{
  ℕ, ◌+◌, ◌-◌, ◌*◌, ◌/◌, ◌%◌, ◌^◌, ◌<◌, ◌≡◌, ap, Bool, true, false, arith, ◌==◌, if◌then◌else◌, ltb,
  ◌&&◌, ◌||◌, not, bit, test_bit, set_bit, clear_bit, set_bit-add, test_bit_of_small, clear_bit-add,
  test_bit_of_top, test_bit-pow, set_bit_of_set, clear_bit_of_clear,
}
use rjk.Spinlock.{kspinlock_try, kspinlock_unlock}
use rjk.Rwlock.{
  section, read_round, read_unlock_body, write_round, write_arrive, write_unlock_body,
  krwlock_read_lock_round, krwlock_read_unlock, krwlock_write_lock_arrive, krwlock_write_lock_round,
  krwlock_write_unlock,
}

-- A word with the spinlock free: `w` writers inside, bit 15 as `b`, `r` readers inside.
abbrev pub pack : ℕ → Bool → ℕ → ℕ
pack w b r = w * 2 ^ 16 + bit b * 2 ^ 15 + r

abbrev top : ℕ
top = 2 ^ 31

try_top : (w : ℕ) → w < 2 ^ 31 → (kspinlock_try w).1 ≡ w + 2 ^ 31
unfolding kspinlock_try
try_top w h = set_bit-add w 31 (test_bit_of_small w 31 h)

unlock_top : (w : ℕ) → w < 2 ^ 31 → kspinlock_unlock (w + 2 ^ 31) ≡ w
unfolding kspinlock_unlock
unlock_top w h = omega (
  arith,
  clear_bit-add (w + 2 ^ 31) 31 (test_bit_of_top (w + 2 ^ 31) 31 (omega arith) (omega arith)),
)

-- A body that keeps the spinlock's bit.
section_lem :
    (body : ℕ → Bool × ℕ) (w v : ℕ) (b : Bool)
    → w < 2 ^ 31
    → v < 2 ^ 31
    → body (w + 2 ^ 31) ≡ (b, v + 2 ^ 31)
    → section body w ≡ (b, v)
section_lem body w v b hw hv e = rw (try_top w hw, e, unlock_top v hv)

pub test_15 : (w : ℕ) → test_bit w 15 ≡ (w / 2 ^ 15 % 2 == 1)
test_15 w = test_bit-pow w 15

set_15 : (w : ℕ) → set_bit w 15 ≡ (if w / 2 ^ 15 % 2 == 1 then w else w + 2 ^ 15)
set_15 w = ground (arith, test_15 w, set_bit-add w 15, set_bit_of_set w 15)

clear_15 : (w : ℕ) → clear_bit w 15 + (if w / 2 ^ 15 % 2 == 1 then 2 ^ 15 else 0) ≡ w
clear_15 w = ground (arith, test_15 w, clear_bit-add w 15, clear_bit_of_clear w 15)

-- What each section makes of a word with its spinlock free.
abbrev pub read_lock_result : ℕ → Bool → ℕ → Bool × ℕ
read_lock_result w true r = (false, pack w true r)
read_lock_result w false r =
    if ltb (r + 1) (2 ^ 15) then (true, pack w false (r + 1)) else (false, pack w false r)

abbrev pub write_round_result : Bool → ℕ → Bool → ℕ → Bool × ℕ
write_round_result found w b r =
    if r == 0 && (not found || (w == 0)) then (true, pack (w + 1) b r) else (false, pack w b r)

module _ (w : ℕ) (b : Bool) (r : ℕ) (hw : w < 2 ^ 15) (hr : r < 2 ^ 15) where
  section_at :
      (body : ℕ → Bool × ℕ) (e : Bool × ℕ)
      → e.1 < 2 ^ 31
      → body (pack w b r + 2 ^ 31) ≡ (e.0, e.1 + 2 ^ 31)
      → section body (pack w b r) ≡ e
  section_at body e small h = section_lem body (pack w b r) e.1 e.0 (ground arith) small h

  -- A reader gets in when no writer has come and the count has room; else nothing changes.
  pub read_lock_lem : krwlock_read_lock_round (pack w b r) ≡ read_lock_result w b r
  unfolding krwlock_read_lock_round
  read_lock_lem = section_at read_round (read_lock_result w b r) (ground arith) (ground arith)

  pub read_unlock_lem : 0 < r → krwlock_read_unlock (pack w b r) ≡ pack w b (r - 1)
  unfolding krwlock_read_unlock
  read_unlock_lem h =
      ap (λ (x : Bool × ℕ). x.1)
        (section_at read_unlock_body (true, pack w b (r - 1)) (ground arith) (ground arith))

  pub write_round_lem :
      (found : Bool)
      → w + 1 < 2 ^ 15
      → krwlock_write_lock_round found (pack w b r) ≡ write_round_result found w b r
  unfolding krwlock_write_lock_round
  write_round_lem found room =
      section_at (write_round found) (write_round_result found w b r) (ground arith) (ground arith)

  pub write_arrive_lem :
      w + 1 < 2 ^ 15 → krwlock_write_lock_arrive (pack w b r) ≡ write_round_result b w true r
  unfolding krwlock_write_lock_arrive
  write_arrive_lem room =
      section_at write_arrive (write_round_result b w true r) (ground arith)
        (ground (arith, test_15 (pack w b r + 2 ^ 31), set_15 (pack w b r + 2 ^ 31)))

  pub write_unlock_lem :
      0 < w → krwlock_write_unlock (pack w b r) ≡ pack (w - 1) (if w == 1 then false else b) r
  unfolding krwlock_write_unlock
  write_unlock_lem h =
      ap (λ (x : Bool × ℕ). x.1)
        (section_at write_unlock_body (true, pack (w - 1) (if w == 1 then false else b) r)
          (ground arith) (ground (arith, clear_15 (pack (w - 1) b r + 2 ^ 31))))
