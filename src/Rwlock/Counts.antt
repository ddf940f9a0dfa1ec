-- ===== src/Rwlock/Counts.antt =====
-- The counters of the read/write lock are exact, however many threads there are.
use rjk.Base.{
  ℕ, ◌-◌, ◌%◌, ◌/◌, ◌^◌, ◌<◌, ◌≤◌, ◌≡◌, refl, Bool, true, false, arith, ◌==◌, if◌then◌else◌,
}
use rjk.Rwlock.Sections.{
  pack, read_lock_lem, read_unlock_lem, write_round_lem, write_arrive_lem, write_unlock_lem,
}
use rjk.Rwlock.Threads.{
  System, writers, read_lock, read_unlock, arrive, poll_first, poll_later, write_unlock, Step,
  reads, read_ends, arrives, polls_first, polls_later, write_ends, Reach, start, next,
}

-- The word is made of the counts and of a bit 15.
pub record Counts (limit : ℕ) (s : System) : Type 0 where
  pub came : Bool
  pub word : s.word ≡ pack s.writing came s.reading
  pub few_readers : s.reading < 2 ^ 15
  pub few_writers : writers s ≤ limit

module _ {limit : ℕ} {s : System} (small : limit < 2 ^ 15 - 1) (c : Counts limit s) where
  open c use {came, word, few_readers, few_writers}

  read_lock-Counts : Counts limit (read_lock s)
  unfolding read_lock
  read_lock-Counts = record {
    came = came;
    word = ground (arith, word, read_lock_lem s.writing came s.reading);
    few_readers = ground (arith, word, read_lock_lem s.writing came s.reading);
    few_writers = few_writers;
  }

  read_unlock-Counts : 0 < s.reading → Counts limit (read_unlock s)
  unfolding read_unlock
  read_unlock-Counts h = record {
    came = came;
    word = ground (arith, word, read_unlock_lem s.writing came s.reading);
    few_readers = omega arith;
    few_writers = few_writers;
  }

  arrive-Counts : writers s < limit → Counts limit (arrive s)
  unfolding arrive
  arrive-Counts h = record {
    came = true;
    word = ground (arith, word, write_arrive_lem s.writing came s.reading);
    few_readers = few_readers;
    few_writers = ground (arith, word, write_arrive_lem s.writing came s.reading);
  }

  poll_first-Counts : 0 < s.first → Counts limit (poll_first s)
  unfolding poll_first
  poll_first-Counts h = record {
    came = came;
    word =
        ground
          (arith, word, write_round_lem s.writing came s.reading (omega arith) few_readers false);
    few_readers = few_readers;
    few_writers =
        ground
          (arith, word, write_round_lem s.writing came s.reading (omega arith) few_readers false);
  }

  poll_later-Counts : 0 < s.later → Counts limit (poll_later s)
  unfolding poll_later
  poll_later-Counts h = record {
    came = came;
    word =
        ground
          (arith, word, write_round_lem s.writing came s.reading (omega arith) few_readers true);
    few_readers = few_readers;
    few_writers =
        ground
          (arith, word, write_round_lem s.writing came s.reading (omega arith) few_readers true);
  }

  write_unlock-Counts : 0 < s.writing → Counts limit (write_unlock s)
  unfolding write_unlock
  write_unlock-Counts h = record {
    came = if s.writing == 1 then false else came;
    word = ground (arith, word, write_unlock_lem s.writing came s.reading);
    few_readers = few_readers;
    few_writers = omega arith;
  }

Step-Counts :
    {limit : ℕ} {s t : System}
    → limit < 2 ^ 15 - 1
    → Step limit s t
    → Counts limit s
    → Counts limit t
Step-Counts small reads c = read_lock-Counts small c
Step-Counts small (read_ends h) c = read_unlock-Counts small c h
Step-Counts small (arrives h) c = arrive-Counts small c h
Step-Counts small (polls_first h) c = poll_first-Counts small c h
Step-Counts small (polls_later h) c = poll_later-Counts small c h
Step-Counts small (write_ends h) c = write_unlock-Counts small c h

pub Reach-Counts : {limit : ℕ} {s : System} → limit < 2 ^ 15 - 1 → Reach limit s → Counts limit s
Reach-Counts small start = record {
  came = false;
  word = refl;
  few_readers = omega arith;
  few_writers = omega arith;
}
Reach-Counts small (next r st) = Step-Counts small st (Reach-Counts small r)

-- With fewer than 2 ^ 15 - 1 writers at a time, and any number of readers, the word counts exactly
-- the readers inside (bits 0..14) and the writers inside (bits 16..30), whatever the interleaving.
pub rwlock_counts :
    {limit : ℕ} {s : System}
    → limit < 2 ^ 15 - 1
    → Reach limit s
    → (s.word % 2 ^ 15 ≡ s.reading) × (s.word / 2 ^ 16 ≡ s.writing)
rwlock_counts small r = let c = Reach-Counts small r in ground (arith, c.word, c.few_readers)
