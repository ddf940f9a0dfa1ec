-- ===== src/Rwlock/Solo.antt =====
-- With one writer at a time the read/write lock of arch/ia32/rwlock.c excludes as it should.
use rjk.Base.{◌+◌, ◌^◌, ◌<◌, ◌≤◌, ◌≡◌, Bool, true, false, arith, leb, ◌⊎◌}
use rjk.Rwlock.Sections.{
  pack, test_15, read_lock_lem, read_unlock_lem, write_round_lem, write_arrive_lem,
  write_unlock_lem,
}
use rjk.Rwlock.Threads.{
  System, writers, read_lock, read_unlock, arrive, poll_first, write_unlock, Step, reads, read_ends,
  arrives, polls_first, polls_later, write_ends, Reach, start, next,
}

-- Bit 15 is set just while a writer waits or writes, and no reader is inside with a writer.
record Solo (s : System) : Type 0 where
  word : s.word ≡ pack s.writing (leb 1 (s.first + s.writing)) s.reading
  few_readers : s.reading < 2 ^ 15
  one : s.first + s.writing ≤ 1
  none_later : s.later ≡ 0
  exclusive : 0 < s.writing → s.reading ≡ 0

module _ {s : System} (c : Solo s) where
  open c use {word, few_readers, one, none_later, exclusive}

  abbrev came : Bool
  came = leb 1 (s.first + s.writing)

  read_lock-Solo : Solo (read_lock s)
  unfolding read_lock
  read_lock-Solo = ground (arith, word, read_lock_lem s.writing came s.reading)

  read_unlock-Solo : 0 < s.reading → Solo (read_unlock s)
  unfolding read_unlock
  read_unlock-Solo h = ground (arith, word, read_unlock_lem s.writing came s.reading)

  arrive-Solo : writers s < 1 → Solo (arrive s)
  unfolding arrive
  arrive-Solo h = ground (arith, word, write_arrive_lem s.writing came s.reading, test_15 s.word)

  poll_first-Solo : 0 < s.first → Solo (poll_first s)
  unfolding poll_first
  poll_first-Solo h =
      ground (arith, word, write_round_lem s.writing came s.reading (omega arith) few_readers false)

  write_unlock-Solo : 0 < s.writing → Solo (write_unlock s)
  unfolding write_unlock
  write_unlock-Solo h = ground (arith, word, write_unlock_lem s.writing came s.reading)

Step-Solo : {s t : System} → Step 1 s t → Solo s → Solo t
Step-Solo reads c = read_lock-Solo c
Step-Solo (read_ends h) c = read_unlock-Solo c h
Step-Solo (arrives h) c = arrive-Solo c h
Step-Solo (polls_first h) c = poll_first-Solo c h
Step-Solo (polls_later h) c = absurd (omega (arith, c.none_later))
Step-Solo (write_ends h) c = write_unlock-Solo c h

Reach-Solo : {s : System} → Reach 1 s → Solo s
Reach-Solo start = ground arith
Reach-Solo (next r st) = Step-Solo st (Reach-Solo r)

-- While at most one thread at a time is in the write functions or between them, a writer inside is
-- alone: no reader is inside with it. Any number of readers may use the lock.
pub rwlock_exclusion :
    {s : System} → Reach 1 s → (s.writing ≡ 0) ⊎ ((s.writing ≡ 1) × (s.reading ≡ 0))
rwlock_exclusion r = let c = Reach-Solo r in ground (arith, c.one, c.exclusive)

-- While at most one thread at a time is in the write functions or between them, a reader that comes
-- while a writer waits does not get in.
pub rwlock_no_overtaking :
    {s : System} → Reach 1 s → 0 < s.first → (read_lock s).reading ≡ s.reading
unfolding read_lock
rwlock_no_overtaking {s} r waiting =
    let c = Reach-Solo r in
    ground (arith, c.word, c.one, c.few_readers, read_lock_lem s.writing true s.reading)

-- While at most one thread at a time is in the write functions or between them, a waiting writer gets
-- in at its next poll once no reader is inside.
pub rwlock_progress :
    {s : System}
    → Reach 1 s
    → 0 < s.first
    → s.reading ≡ 0
    → ((poll_first s).writing ≡ 1) × ((poll_first s).first ≡ 0)
unfolding poll_first
rwlock_progress {s} r waiting quiet =
    let c = Reach-Solo r in
    ground (
      arith,
      c.word,
      c.one,
      c.few_readers,
      write_round_lem s.writing true s.reading (omega (arith, c.one)) c.few_readers false,
    )
