-- ===== src/Printf/Screen.antt =====
-- raw_print of arch/ia32/printf.c: the screen of 25 lines of 80 characters, two bytes each, at video_memory.
use rjk.Base.{
  ℕ, ◌+◌, ◌*◌, ◌/◌, ◌%◌, ◌^◌, ◌<◌, ◌≤◌, ◌≡◌, ◌≢◌, refl, sym, ap, ◌∙◌, ◌⊎◌, inl, inr, false, ◌&&◌,
  List, [], ◌∷◌, ◌++◌, append-nil, append_assoc, ◌==◌, if◌then◌else◌, leb, ltb, u32, u8, arith,
  Bool-cases, update, update_ne,
}
use rjk.Memory.Bytes.{Bytes, kmemory_virtual_copy}
use rjk.Memory.Bytes.Copy.{kmemory_virtual_copy_lem}

-- The bytes of the memory, `video_memory`, `video_next`, and what has gone to the debug port, 0xE9.
pub record Screen : Type 0 where
  pub memory : Bytes
  pub video_memory : ℕ
  pub video_next : ℕ
  pub debug : List ℕ

-- The last `if` of the loop: each line goes one up, and the last one is blank.
unfoldable pub scroll : (blank_line : ℕ) → Screen → Screen
scroll blank_line s =
    if leb 4000 s.video_next
    then record s {
      video_next = 3840;
      memory =
          kmemory_virtual_copy (u32 (s.video_memory + 3840)) blank_line 160
            (kmemory_virtual_copy s.video_memory (u32 (s.video_memory + 160)) 3840 s.memory);
    }
    else s

-- A newline, or a character at `video_next`.
unfoldable pub place : (c : ℕ) → Screen → Screen
place c s =
    if c == b'\n' then record s { video_next = s.video_next / 160 * 160 + 160 } else record s {
      memory = update s.memory (u32 (s.video_memory + s.video_next)) (u8 c);
      video_next = u32 (s.video_next + 2);
    }

-- One round of the loop.
unfoldable pub print_character : (blank_line c : ℕ) → Screen → Screen
unfolding scroll place
print_character blank_line c s =
    scroll blank_line (place c (record s { debug = s.debug ++ c ∷ [] }))

-- The loop, up to a NUL.
unfoldable pub raw_print : (blank_line : ℕ) → (buffer : List ℕ) → Screen → Screen
unfolding print_character
raw_print blank_line [] s = s
raw_print blank_line (c ∷ buffer) s =
    let rest = raw_print blank_line buffer (print_character blank_line c s) in
    if c == 0 then s else rest

-- The text of a buffer, up to its NUL.
abbrev pub text_of : List ℕ → List ℕ
text_of [] = []
text_of (c ∷ buffer) = if c == 0 then [] else c ∷ text_of buffer

-- The next character goes to a place on the screen.
pub record IsScreen (s : Screen) : Type 0 where
  pub even : s.video_next % 2 ≡ 0
  pub next_lt : s.video_next < 4000
  pub memory_lt : s.video_memory + 4000 < 2 ^ 32

-- The blank line is a constant elsewhere in memory.
abbrev pub IsElsewhere : (blank_line : ℕ) → Screen → Type 0
IsElsewhere blank_line s =
    (blank_line + 160 < 2 ^ 32)
    × ((blank_line + 160 ≤ s.video_memory) ⊎ (s.video_memory + 4000 ≤ blank_line))

-- Steps that keep a screen, and the memory around it.
pub record Prints (s t : Screen) (out : List ℕ) : Type 0 where
  pub screen : IsScreen t
  pub video_memory_eq : t.video_memory ≡ s.video_memory
  pub debug_eq : t.debug ≡ s.debug ++ out
  pub around :
      (a : ℕ) → (a < s.video_memory) ⊎ (s.video_memory + 4000 ≤ a) → t.memory a ≡ s.memory a

scroll-around :
    (blank_line : ℕ) (s : Screen) (a : ℕ)
    → s.video_memory + 4000 < 2 ^ 32
    → IsElsewhere blank_line s
    → (a < s.video_memory) ⊎ (s.video_memory + 4000 ≤ a)
    → kmemory_virtual_copy
        (u32 (s.video_memory + 3840))
        blank_line
        160
        (kmemory_virtual_copy s.video_memory (u32 (s.video_memory + 160)) 3840 s.memory)
        a
      ≡ s.memory a
scroll-around blank_line s a small apart out =
    let last : u32 (s.video_memory + 3840) ≡ s.video_memory + 3840 = omega arith in
    let second : u32 (s.video_memory + 160) ≡ s.video_memory + 160 = omega arith in
    let m = kmemory_virtual_copy s.video_memory (u32 (s.video_memory + 160)) 3840 s.memory in
    let outer =
      kmemory_virtual_copy_lem (u32 (s.video_memory + 3840)) blank_line 160 m (ground arith)
        (omega arith) (omega arith) a in
    let inner =
      kmemory_virtual_copy_lem s.video_memory (u32 (s.video_memory + 160)) 3840 s.memory
        (inl (omega arith)) (omega arith) (omega arith) a in
    let not_last : (leb (u32 (s.video_memory + 3840)) a
          && ltb a (u32 (s.video_memory + 3840) + 160))
        ≡ false =
      ground arith in
    let not_first : (leb s.video_memory a && ltb a (s.video_memory + 3840)) ≡ false =
      ground arith in
    outer ∙ rw not_last (inner ∙ rw not_first refl)

module _ (blank_line : ℕ) where
  place-around :
      (c : ℕ) (s : Screen) (a : ℕ)
      → IsScreen s
      → (a < s.video_memory) ⊎ (s.video_memory + 4000 ≤ a)
      → (place c s).memory a ≡ s.memory a
  unfolding place
  place-around c s a i out =
      let at : u32 (s.video_memory + s.video_next) ≡ s.video_memory + s.video_next =
        omega (arith, i.next_lt, i.memory_lt) in
      let ne : a ≢ u32 (s.video_memory + s.video_next) =
        λ e. ground (arith, e, at, out, i.next_lt, i.even) in
      elim (Bool-cases (c == b'\n')) [
        | inl newline ↦ rw newline refl
        | inr other ↦
            rw other (update_ne s.memory (u32 (s.video_memory + s.video_next)) a (u8 c) ne)
      ]

  place-next :
      (c : ℕ) (s : Screen)
      → IsScreen s
      → ((place c s).video_next % 2 ≡ 0) × ((place c s).video_next < 4002 + 158)
  unfolding place
  place-next c s i = ground (arith, i.even, i.next_lt)

  place-rest :
      (c : ℕ) (s : Screen)
      → ((place c s).video_memory ≡ s.video_memory) × ((place c s).debug ≡ s.debug)
  unfolding place
  place-rest c s = elim (Bool-cases (c == b'\n')) [
    | inl e ↦ rw e (refl, refl)
    | inr e ↦ rw e (refl, refl)
  ]

  scroll-Prints :
      (s : Screen)
      → s.video_next % 2 ≡ 0
      → s.video_memory + 4000 < 2 ^ 32
      → IsElsewhere blank_line s
      → Prints s (scroll blank_line s) []
  unfolding scroll
  scroll-Prints s even small apart = elim (Bool-cases (leb 4000 s.video_next)) [
    | inl e ↦ rw e (record {
      screen = record { even = omega arith; next_lt = omega arith; memory_lt = small };
      video_memory_eq = refl;
      debug_eq = sym (append-nil s.debug);
      around = λ a out. scroll-around blank_line s a small apart out;
    })
    | inr e ↦ rw e (record {
      screen = record { even = even; next_lt = ground (arith, e); memory_lt = small };
      video_memory_eq = refl;
      debug_eq = sym (append-nil s.debug);
      around = λ a out. refl;
    })
  ]

  character-Prints :
      (c : ℕ) (s : Screen)
      → IsScreen s
      → IsElsewhere blank_line s
      → Prints s (print_character blank_line c s) (c ∷ [])
  unfolding print_character
  character-Prints c s i apart =
      let s1 = record s { debug = s.debug ++ c ∷ [] } in
      let i1 : IsScreen s1 = record {
        even = i.even;
        next_lt = i.next_lt;
        memory_lt = i.memory_lt;
      } in
      let s2 = place c s1 in
      let (vm, debug) = place-rest c s1 in
      let p = scroll-Prints s2 (place-next c s1 i1).0 (rw vm i.memory_lt) (rw vm apart) in
      record {
        screen = p.screen;
        video_memory_eq = p.video_memory_eq ∙ vm;
        debug_eq = p.debug_eq ∙ append-nil s2.debug ∙ debug;
        around = λ a out. p.around a (rw vm out) ∙ place-around c s1 a i1 out;
      }

  -- raw_print sends the text, up to its NUL, to the debug port; video_next stays even and on the screen; and
  -- no byte outside the 4000 of the screen is written, scrolling included, when the constant blank line is
  -- not on the screen.
  pub raw_print-Prints :
      (buffer : List ℕ) (s : Screen)
      → IsScreen s
      → IsElsewhere blank_line s
      → Prints s (raw_print blank_line buffer s) (text_of buffer)
  unfolding raw_print
  raw_print-Prints [] s i apart = record {
    screen = i;
    video_memory_eq = refl;
    debug_eq = sym (append-nil s.debug);
    around = λ a out. refl;
  }
  raw_print-Prints (c ∷ buffer) s i apart = elim (Bool-cases (c == 0)) [
    | inl e ↦ rw e (record {
      screen = i;
      video_memory_eq = refl;
      debug_eq = sym (append-nil s.debug);
      around = λ a out. refl;
    })
    | inr e ↦
        let p = character-Prints c s i apart in
        let rest =
          raw_print-Prints buffer (print_character blank_line c s) p.screen
            (rw p.video_memory_eq apart) in
        rw e (record {
          screen = rest.screen;
          video_memory_eq = rest.video_memory_eq ∙ p.video_memory_eq;
          debug_eq =
              rest.debug_eq
              ∙ ap (λ l. l ++ text_of buffer) p.debug_eq
              ∙ append_assoc s.debug (c ∷ []) (text_of buffer);
          around = λ a out. rest.around a (rw p.video_memory_eq out) ∙ p.around a out;
        })
  ]
