-- ===== src/Printf/Format/Errors.antt =====
-- What kvsprintf of arch/ia32/printf.c does with a specifier that it does not know.
use rjk.Base.{
  ℕ, suc, ◌≡◌, ◌≢◌, refl, ap, ◌∙◌, Bool, true, false, ◌||◌, Option, none, some, List, [], ◌∷◌, ◌++◌,
  ◌==◌, u8, arith, append_assoc,
}
use rjk.Printf.{Flags, write_character, write_string}
use rjk.Printf.Format.{
  Outside, Printed, convert, write_number, write_other, print_loop, format_error, numeric,
  error_text,
}
use rjk.Printf.Format.Directive.{Directive, text, ends, flags_of, width_of}
use rjk.Printf.Format.RoundTrip.{print_directive, text_start, read_directive-text}

-- The specifiers of a number, and all of those that there are.
abbrev pub is_number_specifier : ℕ → Bool
is_number_specifier c =
    (c == b'd') || (c == b'i') || (c == b'u') || (c == b'o') || (c == b'x') || (c == b'X')

abbrev pub is_specifier : ℕ → Bool
is_specifier c =
    is_number_specifier c
    || (c == b'f')
    || (c == b'F')
    || (c == b'c')
    || (c == b's')
    || (c == b'p')
    || (c == b'%')

numeric-none : (c : ℕ) (f : Flags) → is_number_specifier c ≡ false → numeric c f ≡ none
numeric-none c f h = ground (arith, h)

convert_other :
    (g : Flags → Printed) {other : Option (Option Printed)} (r : Option Flags)
    → r ≡ none
    → other ≡ none
    → ◌≡◌ {A = Option (Option Printed)} (elim r [ none ↦ other | some f ↦ some (some (g f)) ]) none
convert_other g none e h = h
convert_other g (some f) e h = cc

format_error_lem :
    (c : ℕ) (p : Printed)
    → format_error c p ≡ record p { buffer = p.buffer ++ (error_text ++ u8 c ∷ b'>' ∷ []) }
unfolding format_error write_string write_character
format_error_lem c p = simp append_assoc

module _ (outside : Outside) (word : ℕ → ℕ) where
  write_other-none :
      (c : ℕ) (f : Flags) (width : ℕ) (p : Printed)
      → is_specifier c ≡ false
      → write_other outside word c f width p ≡ none
  unfolding write_other
  write_other-none c f width p h =
      let percent : (c == b'%') ≡ false = ground (arith, h) in
      let char : (c == b'c') ≡ false = ground (arith, h) in
      let string : (c == b's') ≡ false = ground (arith, h) in
      let pointer : (c == b'p') ≡ false = ground (arith, h) in
      let float : ((c == b'f') || (c == b'F')) ≡ false = ground (arith, h) in
      rw (percent, char, string, pointer, float) refl

  convert-none :
      (c : ℕ) (f : Flags) (width : ℕ) (p : Printed)
      → is_specifier c ≡ false
      → convert outside word c f width p ≡ none
  unfolding convert
  convert-none c f width p h =
      convert_other (λ g. write_number outside word g width p) (numeric c f)
        (numeric-none c f (ground (arith, h))) (write_other-none c f width p h)

  -- A directive whose specifier is none of d, i, u, o, x, X, f, F, c, s, p and % ends the output: the
  -- buffer gets "<format error,", the specifier and ">", no argument is taken, and whatever follows the
  -- directive in the format is not printed.
  pub print_loop_error :
      (d : Directive) (rest : List ℕ) (rounds : ℕ) (p : Printed)
      → d.specifier ≢ 0
      → ends d.specifier ≡ true
      → is_specifier d.specifier ≡ false
      → print_loop outside word (suc rounds) (b'%' ∷ (text d ++ rest)) p
        ≡ some (record p { buffer = p.buffer ++ (error_text ++ u8 d.specifier ∷ b'>' ∷ []) })
  print_loop_error d rest rounds p z e h =
      print_directive outside word rounds (text d ++ rest) p (text_start d rest z)
        (read_directive-text d rest e)
      ∙ ap
          (λ (r : Option (Option Printed)). elim r as (λ _. Option Printed) [
            | none ↦ some (format_error d.specifier p)
            | some none ↦ none
            | some (some q) ↦ print_loop outside word rounds rest q
          ])
          (convert-none d.specifier (flags_of d) (width_of d) p h)
      ∙ ap some (format_error_lem d.specifier p)
