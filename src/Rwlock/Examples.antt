-- ===== src/Rwlock/Examples.antt =====
-- Runs of readers and writers on one lock of arch/ia32/rwlock.c.
use mathlib.Core.Path.{subst}
use rjk.Base.{ℕ, ◌/◌, ◌%◌, ◌^◌, ◌≡◌, refl, arith, ◌⊎◌, test_bit, set_bit, clear_bit}
use rjk.Spinlock.{kspinlock_try, kspinlock_unlock}
use rjk.Rwlock.{
  krwlock_read_lock_round, krwlock_read_unlock, krwlock_write_lock_arrive, krwlock_write_lock_round,
  krwlock_write_unlock,
}
use rjk.Rwlock.Threads.{
  System, read_lock, read_unlock, arrive, poll_first, write_unlock, Reach, start, next, reads,
  read_ends, arrives, polls_first, write_ends, free,
}
use rjk.Rwlock.Counts.{rwlock_counts}
use rjk.Rwlock.Solo.{rwlock_exclusion, rwlock_no_overtaking, rwlock_progress}
use rjk.Rwlock.Races.{two_writers_enter, reader_joins_writer}

abbrev at : (word reading first later writing : ℕ) → System
at w r f l v = record { word = w; reading = r; first = f; later = l; writing = v }

-- A reader comes, two writers wait, the reader leaves, the first writer comes and leaves.
reader : read_lock free ≡ at 1 1 0 0 0
unfolding read_lock krwlock_read_lock_round kspinlock_try kspinlock_unlock test_bit set_bit
    clear_bit
reader = refl

waits : arrive (at 1 1 0 0 0) ≡ at 0x8001 1 1 0 0
unfolding arrive krwlock_write_lock_arrive kspinlock_try kspinlock_unlock test_bit set_bit clear_bit
waits = refl

waits_too : arrive (at 0x8001 1 1 0 0) ≡ at 0x8001 1 1 1 0
unfolding arrive krwlock_write_lock_arrive kspinlock_try kspinlock_unlock test_bit set_bit clear_bit
waits_too = refl

leaves : (f l : ℕ) → read_unlock (at 0x8001 1 f l 0) ≡ at 0x8000 0 f l 0
unfolding read_unlock krwlock_read_unlock kspinlock_try kspinlock_unlock test_bit set_bit clear_bit
leaves f l = refl

writes : poll_first (at 0x8000 0 1 1 0) ≡ at 0x18000 0 0 1 1
unfolding poll_first krwlock_write_lock_round kspinlock_try kspinlock_unlock test_bit set_bit
    clear_bit
writes = refl

has_written : write_unlock (at 0x18000 0 0 1 1) ≡ at 0 0 0 1 0
unfolding write_unlock krwlock_write_unlock kspinlock_try kspinlock_unlock test_bit set_bit
    clear_bit
has_written = refl

one_waits : Reach 1 (at 0x8001 1 1 0 0)
one_waits =
    subst (Reach 1) waits (next (subst (Reach 1) reader (next start reads)) (arrives (omega arith)))

one_ready : Reach 1 (at 0x8000 0 1 0 0)
one_ready = subst (Reach 1) (leaves 1 0) (next one_waits (read_ends (omega arith)))

both_ready : Reach 2 (at 0x8000 0 1 1 0)
both_ready =
    let inside = subst (Reach 2) reader (next start reads) in
    let one = subst (Reach 2) waits (next inside (arrives (omega arith))) in
    let two = subst (Reach 2) waits_too (next one (arrives (omega arith))) in
    subst (Reach 2) (leaves 1 1) (next two (read_ends (omega arith)))

one_left : Reach 2 (at 0 0 0 1 0)
one_left =
    let one = subst (Reach 2) writes (next both_ready (polls_first (omega arith))) in
    subst (Reach 2) has_written (next one (write_ends (omega arith)))

rwlock_counts_example : (0x8001 % 2 ^ 15 ≡ 1) × (0x8001 / 2 ^ 16 ≡ 0)
rwlock_counts_example = rwlock_counts {limit = 1} (omega arith) one_waits

rwlock_exclusion_example : (◌≡◌ {A = ℕ} 0 0) ⊎ ((◌≡◌ {A = ℕ} 0 1) × (◌≡◌ {A = ℕ} 1 0))
rwlock_exclusion_example = rwlock_exclusion one_waits

rwlock_no_overtaking_test : (read_lock (at 0x8001 1 1 0 0)).reading ≡ 1
rwlock_no_overtaking_test = rwlock_no_overtaking one_waits (omega arith)

rwlock_progress_example :
    ((poll_first (at 0x8000 0 1 0 0)).writing ≡ 1) × ((poll_first (at 0x8000 0 1 0 0)).first ≡ 0)
rwlock_progress_example = rwlock_progress one_ready (omega arith) refl

two_writers_enter_example : (t : System) × Reach 2 t × (t.writing ≡ 2)
two_writers_enter_example =
    two_writers_enter (omega arith) both_ready (omega arith) (omega arith) refl refl

reader_joins_writer_test : (t : System) × Reach 2 t × (t.writing ≡ 1) × (t.reading ≡ 1)
unfolding test_bit
reader_joins_writer_test = reader_joins_writer (omega arith) one_left (omega arith) refl refl refl
