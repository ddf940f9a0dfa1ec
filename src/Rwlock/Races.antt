-- ===== src/Rwlock/Races.antt =====
-- Two writers defeat the lock of arch/ia32/rwlock.c.
use rjk.Base.{ℕ, ◌-◌, ◌^◌, ◌<◌, ◌≡◌, Bool, true, false, arith, test_bit}
use rjk.Rwlock.Sections.{pack, test_15, read_lock_lem, write_round_lem}
use rjk.Rwlock.Threads.{
  System, read_lock, poll_first, poll_later, reads, polls_first, polls_later, Reach, next,
}
use rjk.Rwlock.Counts.{Reach-Counts}

-- What a poll by a later writer makes of a lock with nobody inside.
record Entered (b : Bool) (s t : System) : Type 0 where
  word : t.word ≡ pack 1 b 0
  writing : t.writing ≡ 1
  reading : t.reading ≡ 0
  first : t.first ≡ s.first

poll_later-Entered :
    (b : Bool) (s : System)
    → s.word ≡ pack 0 b 0
    → s.writing ≡ 0
    → s.reading ≡ 0
    → Entered b s (poll_later s)
unfolding poll_later
poll_later-Entered b s word none_in quiet =
    ground (arith, write_round_lem 0 b 0 (omega arith) (omega arith) true)

poll_first-again :
    (b : Bool) (s : System) → s.word ≡ pack 1 b 0 → s.writing ≡ 1 → (poll_first s).writing ≡ 2
unfolding poll_first
poll_first-again b s word in_ =
    ground (arith, write_round_lem 1 b 0 (omega arith) (omega arith) false)

read_lock-enters :
    (s : System)
    → s.word ≡ pack 1 false 0
    → s.reading ≡ 0
    → ((read_lock s).reading ≡ 1) × ((read_lock s).writing ≡ s.writing)
unfolding read_lock
read_lock-enters s word quiet = ground (arith, read_lock_lem 1 false 0)

module _ {limit : ℕ} {s : System} (small : limit < 2 ^ 15 - 1) (r : Reach limit s) where
  -- When two writers wait behind readers, one that set bit 15 and one that found it set, and the last
  -- reader has left, then both get in by their next polls: two writers are inside together.
  pub two_writers_enter :
      0 < s.first
      → 0 < s.later
      → s.reading ≡ 0
      → s.writing ≡ 0
      → (t : System) × Reach limit t × (t.writing ≡ 2)
  two_writers_enter f l quiet none_in =
      let c = Reach-Counts small r in
      let e = poll_later-Entered c.came s (ground (arith, c.word)) none_in quiet in
      (
        poll_first (poll_later s),
        next (next r (polls_later l)) (polls_first (omega (arith, e.first))),
        poll_first-again c.came (poll_later s) e.word e.writing,
      )

  -- When a writer that found bit 15 set waits while nobody is inside and bit 15 is clear again, it
  -- gets in without setting the bit, and the next reader gets in beside it.
  pub reader_joins_writer :
      0 < s.later
      → s.reading ≡ 0
      → s.writing ≡ 0
      → test_bit s.word 15 ≡ false
      → (t : System) × Reach limit t × (t.writing ≡ 1) × (t.reading ≡ 1)
  reader_joins_writer l quiet none_in clear =
      let c = Reach-Counts small r in
      let e = poll_later-Entered false s (ground (arith, c.word, test_15 s.word)) none_in quiet in
      let j = read_lock-enters (poll_later s) e.word e.reading in
      (
        read_lock (poll_later s),
        next (next r (polls_later l)) reads,
        omega (arith, j.1, e.writing),
        j.0,
      )
