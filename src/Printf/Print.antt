-- ===== src/Printf/Print.antt =====
-- kprintf and kvprintf of arch/ia32/printf.c, between the lock and the unlock of kprintf_spinlock, and
-- what scrolling does to the lines. kprintf_buffer is one page, apart from
-- the memory with the screen: `none` also when the text with its NUL runs over the page.
use rjk.Base.{
  ℕ, ◌+◌, ◌-◌, ◌^◌, ◌<◌, ◌≤◌, ◌≡◌, ◌≢◌, refl, ap, ◌∙◌, inl, true, false, ◌&&◌, List, [], ◌∷◌, ◌++◌,
  Option, none, some, leb, ltb, u32, arith, length, length-append, if◌then◌else◌,
}
use rjk.Memory.Bytes.{kmemory_virtual_copy}
use rjk.Memory.Bytes.Copy.{kmemory_virtual_copy_lem}
use rjk.Printf.Screen.{
  Screen, IsScreen, IsElsewhere, Prints, scroll, raw_print, raw_print-Prints, text_of,
}
use rjk.Printf.Format.{Outside, kvsprintf}
use rjk.Printf.Format.Termination.{kvsprintf_ends}

-- KPAGESIZE, the size of kprintf_buffer.
abbrev pub buffer_size : ℕ
buffer_size = 4096

unfoldable pub kvprintf :
    Outside
    → (word : ℕ → ℕ) → (blank_line rounds : ℕ) → (format : List ℕ) → Screen
    → Option (ℕ × Screen)
unfolding kvsprintf raw_print
kvprintf outside word blank_line rounds format s = elim (kvsprintf outside word rounds format) [
  | none ↦ none
  | some (count, buffer) ↦
      if leb (length buffer) buffer_size then some (count, raw_print blank_line buffer s) else none
]

-- When the float's writer runs for ever on no three words of the arguments, formatting ends on every format,
-- after at most one round more than the format has bytes. If the text and its NUL fit into the page of
-- kprintf_buffer, printing ends too: it returns the number of bytes formatted, sends their text up to the first
-- NUL to the debug port, keeps video_next even and on the screen, and writes no byte of the memory around
-- the screen. A longer text is outside the model.
pub kvprintf-Prints :
    (outside : Outside) (word : ℕ → ℕ) (blank_line rounds : ℕ) (format : List ℕ) (s : Screen)
    → ((k width : ℕ) (b : List ℕ)
        → outside.write_number_kfloat (word k) (word (k + 1)) (word (k + 2)) width b ≢ none)
    → length format < rounds
    → IsScreen s
    → IsElsewhere blank_line s
    → (b : List ℕ) × (t : Screen) × (kvsprintf outside word rounds format
        ≡ some (u32 (length b), b ++ 0 ∷ []))
      × (kvprintf outside word blank_line rounds format s
          ≡ (if ltb (length b) 4096 then some (u32 (length b), t) else none))
      × Prints s t (text_of (b ++ 0 ∷ []))
unfolding kvprintf
kvprintf-Prints outside word blank_line rounds format s floats_end enough i apart =
    let (b, e) = kvsprintf_ends outside word floats_end rounds format enough in
    let fits : leb (length (b ++ 0 ∷ [])) buffer_size ≡ ltb (length b) 4096 =
      ground (arith, length-append b (0 ∷ [])) in
    (
      b,
      raw_print blank_line (b ++ 0 ∷ []) s,
      e,
      rw (e, kvprintf) (rw fits refl),
      raw_print-Prints blank_line (b ++ 0 ∷ []) s i apart,
    )

module _ (blank_line : ℕ) (s : Screen) (full : 4000 ≤ s.video_next)
    (small : s.video_memory + 4000 < 2 ^ 32) (apart : IsElsewhere blank_line s) where
  -- A full screen scrolls: each byte of the first 24 lines becomes the one a line below it, the last line
  -- becomes the blank line, and the next character goes to its start.
  pub scroll_lem :
      ((k : ℕ)
        → k < 3840
        → (scroll blank_line s).memory (s.video_memory + k) ≡ s.memory (s.video_memory + k + 160))
      × ((k : ℕ)
          → k < 160
          → (scroll blank_line s).memory (s.video_memory + 3840 + k) ≡ s.memory (blank_line + k))
      × ((scroll blank_line s).video_next ≡ 3840)
  unfolding scroll
  scroll_lem =
      let e : leb 4000 s.video_next ≡ true = ground (arith, full) in
      let last : u32 (s.video_memory + 3840) ≡ s.video_memory + 3840 = omega arith in
      let second : u32 (s.video_memory + 160) ≡ s.video_memory + 160 = omega arith in
      let m = kmemory_virtual_copy s.video_memory (u32 (s.video_memory + 160)) 3840 s.memory in
      let outer = λ (a : ℕ).
        kmemory_virtual_copy_lem (u32 (s.video_memory + 3840)) blank_line 160 m (ground arith)
          (omega arith) (omega arith) a in
      let inner = λ (a : ℕ).
        kmemory_virtual_copy_lem s.video_memory (u32 (s.video_memory + 160)) 3840 s.memory
          (inl (omega arith)) (omega arith) (omega arith) a in
      (
        λ k h.
            let not_last : (leb (u32 (s.video_memory + 3840)) (s.video_memory + k)
                  && ltb (s.video_memory + k) (u32 (s.video_memory + 3840) + 160))
                ≡ false =
              ground arith in
            let moved : (leb s.video_memory (s.video_memory + k)
                  && ltb (s.video_memory + k) (s.video_memory + 3840))
                ≡ true =
              ground arith in
            rw e (
              outer (s.video_memory + k)
              ∙ rw not_last (inner (s.video_memory + k) ∙ rw moved (ap s.memory (omega arith)))),
        λ k h.
            let a = s.video_memory + 3840 + k in
            let is_last : (leb (u32 (s.video_memory + 3840)) a
                  && ltb a (u32 (s.video_memory + 3840) + 160))
                ≡ true =
              ground arith in
            let at : blank_line + (a - u32 (s.video_memory + 3840)) ≡ blank_line + k =
              omega arith in
            let kept : (leb s.video_memory (blank_line + k)
                  && ltb (blank_line + k) (s.video_memory + 3840))
                ≡ false =
              ground arith in
            rw e (outer a ∙ rw is_last (ap m at ∙ inner (blank_line + k) ∙ rw kept refl)),
        rw e refl,
      )
