-- ===== src/Rwlock/Threads.antt =====
-- Threads that use one lock of arch/ia32/rwlock.c. A thread keeps no state but where it stands, so
-- the threads are counted by place. A waiting thread may poll at any moment, which is what the loops
-- with `kthread_yield` do.
use rjk.Base.{ℕ, ◌+◌, ◌-◌, ◌<◌, true, false, if◌then◌else◌, test_bit}
use rjk.Rwlock.{
  krwlock_read_lock_round, krwlock_read_unlock, krwlock_write_lock_arrive, krwlock_write_lock_round,
  krwlock_write_unlock,
}

pub record System : Type 0 where
  pub word : ℕ
  pub reading : ℕ  -- between `krwlock_read_lock` and `krwlock_read_unlock`
  pub first : ℕ  -- waiting writers that set bit 15
  pub later : ℕ  -- waiting writers that found bit 15 set
  pub writing : ℕ  -- between `krwlock_write_lock` and `krwlock_write_unlock`

abbrev pub writers : System → ℕ
writers s = s.first + s.later + s.writing

unfoldable pub read_lock : System → System
read_lock s =
    let (entered, w) = krwlock_read_lock_round s.word in
    record s { word = w; reading = if entered then s.reading + 1 else s.reading }

unfoldable pub read_unlock : System → System
read_unlock s = record s { word = krwlock_read_unlock s.word; reading = s.reading - 1 }

unfoldable pub arrive : System → System
arrive s =
    let (entered, w) = krwlock_write_lock_arrive s.word in
    record s {
      word = w;
      first = if entered then s.first else if test_bit s.word 15 then s.first else s.first + 1;
      later = if entered then s.later else if test_bit s.word 15 then s.later + 1 else s.later;
      writing = if entered then s.writing + 1 else s.writing;
    }

unfoldable pub poll_first : System → System
poll_first s =
    let (entered, w) = krwlock_write_lock_round false s.word in
    record s {
      word = w;
      first = if entered then s.first - 1 else s.first;
      writing = if entered then s.writing + 1 else s.writing;
    }

unfoldable pub poll_later : System → System
poll_later s =
    let (entered, w) = krwlock_write_lock_round true s.word in
    record s {
      word = w;
      later = if entered then s.later - 1 else s.later;
      writing = if entered then s.writing + 1 else s.writing;
    }

unfoldable pub write_unlock : System → System
write_unlock s = record s { word = krwlock_write_unlock s.word; writing = s.writing - 1 }

-- At most `limit` threads are at a time in the write functions or between them.
pub data Step (limit : ℕ) (s : System) : System → Type 0 where
  reads : Step limit s (read_lock s)
  read_ends : 0 < s.reading → Step limit s (read_unlock s)
  arrives : writers s < limit → Step limit s (arrive s)
  polls_first : 0 < s.first → Step limit s (poll_first s)
  polls_later : 0 < s.later → Step limit s (poll_later s)
  write_ends : 0 < s.writing → Step limit s (write_unlock s)

abbrev pub free : System
free = record { word = 0; reading = 0; first = 0; later = 0; writing = 0 }

pub data Reach (limit : ℕ) : System → Type 0 where
  start : Reach limit free
  next : {s t : System} → Reach limit s → Step limit s t → Reach limit t
