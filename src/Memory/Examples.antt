-- ===== src/Memory/Examples.antt =====
-- A directory with one table whose last four pages make a zone, and what get_free_pages of
-- arch/ia32/memory.c does.
use rjk.Base.{ℕ, ◌+◌, ◌≡◌, refl, false, none, arith, ◌==◌, if◌then◌else◌, test_bit}
use rjk.Memory.{
  Memory, is_available, get_free_pages, scan_zone, scan_directory, scan_entry, scan_table,
  zone_loop, take_run,
}
use rjk.Memory.Pages.{Taken, get_free_pages_exhausted, taken_one_page}

-- The directory at 0x1000 and its one table at 0x2000, where only the page given may be free.
abbrev memory : ℕ → Memory
memory page = record {
  words = λ p. if p == 0x400 then 0x2100 else if p == 0x800 + page then 0x200 else 0;
  linear_directory = 0x1000;
  zones = λ z.
      if z == 0
      then record { next = 0x3FC000; start = 0x3FC000; end = 0x3FF000 }
      else record { next = 0; start = 0; end = 0 };
}

nothing_free : get_free_pages (memory 2) 1 0 ≡ none
unfolding get_free_pages zone_loop scan_zone scan_directory scan_entry scan_table is_available
    test_bit
nothing_free = refl

get_free_pages_exhausted_test : is_available (memory 2) 0 1021 ≡ false
unfolding test_bit
get_free_pages_exhausted_test =
    get_free_pages_exhausted (memory 2) 0 nothing_free 0 0 1021 (omega arith) (omega arith)
      (omega arith) (omega arith, omega arith, (λ e. omega arith), omega arith, refl)

one_taken : Taken (memory 1022) 1 (get_free_pages (memory 1022) 1 0)
unfolding get_free_pages zone_loop scan_zone scan_directory scan_entry scan_table take_run
    is_available test_bit
one_taken = record {
  address = 0x3FE000;
  after = (take_run (memory 1022) 0 1 0x3FE000 0 1022).1;
  i1 = 0;
  i2 = 1022;
  zone = 0;
  returns = refl;
  was_free = (refl, refl, omega arith);
  marked = refl;
  goes_on = refl;
  first_free = (0, 1022, (refl, refl, omega arith), refl);
  one_page = λ e. refl;
  same_directory = refl;
}

taken_one_page_test :
    (is_available one_taken.after 0 1022 ≡ false)
    × (is_available one_taken.after 0 1020 ≡ is_available (memory 1022) 0 1020)
unfolding one_taken
taken_one_page_test =
    taken_one_page (memory 1022) 1 0 one_taken (omega arith) 0 1020 (omega arith) (omega arith)
