-- ===== src/Printf/Format/RoundTrip.antt =====
-- What kvsprintf of arch/ia32/printf.c makes of the text of a directive, and of a format that is the text
-- of literals and directives.
use rjk.Base.{
  ℕ, zero, suc, ◌*◌, ◌^◌, ◌<◌, ◌≡◌, ◌≢◌, refl, ap, ◌∙◌, true, false, Option, none, some, List, [],
  ◌∷◌, ◌++◌, map, append_assoc, ◌==◌, u32, arith, All, length,
}
use Prim.Native.Nat.{bit_or}
use rjk.Printf.{Flags, write_character}
use rjk.Printf.Format.{
  no_flags, Cursor, next, is_flag, is_digit, read_flags, read_number, read_precision, read_length,
  read_directive, Outside, Printed, convert, print_loop, format_error,
}
use rjk.Printf.Format.Directive.{
  Flag, Number, Precision, Length, Directive, text, ends, flags_of, width_of, hash, zeros, space,
  no_precision, point, precision, no_length, half, byte, long, double_long, read_flags-text,
  read_width-text, read_precision-text, read_length-text, flag_char, add_flags, width_text,
  precision_text, length_text,
}

-- What `ends` says of a specifier.
pub record Ending (s : ℕ) : Type 0 where
  pub flag : is_flag s ≡ false
  pub digit : is_digit s ≡ false
  pub dot : (s == b'.') ≡ false
  pub h : (s == b'h') ≡ false
  pub l : (s == b'l') ≡ false

ends-Ending : (s : ℕ) → ends s ≡ true → Ending s
ends-Ending s e = record {
  flag = ground (arith, e);
  digit = ground (arith, e);
  dot = ground (arith, e);
  h = ground (arith, e);
  l = ground (arith, e);
}

length_start :
    (size : Length) (s : ℕ) (rest : List ℕ)
    → Ending s
    → (let c = (next (length_text size ++ s ∷ rest)).0 in
        (is_flag c ≡ false) × (is_digit c ≡ false) × ((c == b'.') ≡ false))
length_start no_length s rest e = (e.flag, e.digit, e.dot)
length_start half s rest e = (refl, refl, refl)
length_start byte s rest e = (refl, refl, refl)
length_start long s rest e = (refl, refl, refl)
length_start double_long s rest e = (refl, refl, refl)

precision_start :
    (p : Precision) (l : List ℕ)
    → is_flag (next l).0 ≡ false
    → is_digit (next l).0 ≡ false
    → (let c = (next (precision_text p ++ l)).0 in (is_flag c ≡ false) × (is_digit c ≡ false))
precision_start no_precision l f d = (f, d)
precision_start point l f d = (refl, refl)
precision_start (precision n) l f d = (refl, refl)

width_start :
    (w : Option Number) (l : List ℕ)
    → is_flag (next l).0 ≡ false
    → is_flag (next (width_text w ++ l)).0 ≡ false
width_start none l f = f
width_start (some n) l f = ground (arith, n.first_pos, n.first_le)

compose :
    (c : ℕ) (format : List ℕ) {f1 f2 : Flags} {at1 at2 at3 at4 : Cursor} {wide precise : ℕ}
    → read_flags c format no_flags ≡ (f1, at1)
    → read_number at1 ≡ (wide, at2)
    → read_precision at2 ≡ (precise, at3)
    → read_length at3 f1 ≡ (f2, at4)
    → read_directive c format ≡ (f2, bit_or (u32 (wide * 2 ^ 16)) precise, at4)
unfolding read_directive
compose c format a b p l = rw (a, b, p, l)

-- The text of a directive, up to its specifier, is read back as the flags and the number that the
-- directive means, and what follows the specifier is left as it is.
pub read_directive-text :
    (d : Directive) (rest : List ℕ)
    → ends d.specifier ≡ true
    → (let (c, format) = next (text d ++ rest) in read_directive c format)
      ≡ (flags_of d, width_of d, (d.specifier, rest))
read_directive-text d rest h =
    let e = ends-Ending d.specifier h in
    let l4 = length_text d.size ++ d.specifier ∷ rest in
    let (lf, ld, lp) = length_start d.size d.specifier rest e in
    let l3 = precision_text d.precise ++ l4 in
    let (pf, pd) = precision_start d.precise l4 lf ld in
    let l2 = width_text d.width ++ l3 in
    let whole : text d ++ rest ≡ map flag_char d.flags ++ l2 = simp append_assoc in
    rw whole (
      compose (next (map flag_char d.flags ++ l2)).0 (next (map flag_char d.flags ++ l2)).1
        (read_flags-text d.flags l2 no_flags (width_start d.width l3 pf))
        (read_width-text d.width l3 pd) (read_precision-text d.precise l4 ld lp)
        (read_length-text d.size d.specifier rest (add_flags d.flags no_flags) e.h e.l))

-- A format as literal characters and directives, and its text.
pub data Item : Type 0 where
  literal : ℕ → Item
  directive : Directive → Item

abbrev pub show : List Item → List ℕ
show [] = []
show (literal c ∷ items) = c ∷ show items
show (directive d ∷ items) = b'%' ∷ (text d ++ show items)

abbrev pub IsItem : Item → Type 0
IsItem (literal c) = (c ≢ 0) × (c ≢ b'%')
IsItem (directive d) = (d.specifier ≢ 0) × (ends d.specifier ≡ true)

-- What the items mean: a literal is copied, a directive is converted by its flags and its number, and the
-- first one with no meaning ends the output.
module _ (outside : Outside) (word : ℕ → ℕ) where
  abbrev pub render : List Item → Printed → Option Printed
  render [] p = some p
  render (literal c ∷ items) p = render items (record p { buffer = write_character c p.buffer })
  render (directive d ∷ items) p =
      elim (convert outside word d.specifier (flags_of d) (width_of d) p) [
        | none ↦ some (format_error d.specifier p)
        | some none ↦ none
        | some (some q) ↦ render items q
      ]

after_convert :
    {go_on go_on' : Printed → Option Printed} (r : Option (Option Printed)) (c : ℕ) (p : Printed)
    → ((q : Printed) → go_on q ≡ go_on' q)
    → ◌≡◌ {A = Option Printed}
        (elim r [ none ↦ some (format_error c p) | some none ↦ none | some (some q) ↦ go_on q ])
        (elim r [ none ↦ some (format_error c p) | some none ↦ none | some (some q) ↦ go_on' q ])
after_convert none c p h = refl
after_convert (some none) c p h = refl
after_convert (some (some q)) c p h = h q

nonzero : (c : ℕ) → c ≢ 0 → (c == 0) ≡ false
nonzero c h = ground (arith, h)

-- The text of a directive does not start with NUL.
pub text_start :
    (d : Directive) (rest : List ℕ) → d.specifier ≢ 0 → ((next (text d ++ rest)).0 == 0) ≡ false
text_start d rest h = starts d.flags d.width d.precise d.size
  where
    starts :
        (fs : List Flag) (w : Option Number) (p : Precision) (l : Length)
        → ((next (
              (map flag_char fs
                ++ (width_text w ++ (precision_text p ++ (length_text l ++ d.specifier ∷ []))))
              ++ rest)).0
            == 0)
          ≡ false
    starts (hash ∷ fs) w p l = refl
    starts (zeros ∷ fs) w p l = refl
    starts (space ∷ fs) w p l = refl
    starts [] (some n) p l = ground arith
    starts [] none point l = refl
    starts [] none (precision n) l = refl
    starts [] none no_precision half = refl
    starts [] none no_precision byte = refl
    starts [] none no_precision long = refl
    starts [] none no_precision double_long = refl
    starts [] none no_precision no_length = nonzero d.specifier h

module _ (outside : Outside) (word : ℕ → ℕ) where
  literal_step :
      (rounds c : ℕ) (format : List ℕ) (p : Printed)
      → c ≢ 0
      → c ≢ b'%'
      → print_loop outside word (suc rounds) (c ∷ format) p
        ≡ print_loop outside word rounds format (record p { buffer = write_character c p.buffer })
  unfolding print_loop
  literal_step rounds c format p z n =
      let e : (c == b'%') ≡ false = ground arith in rw (nonzero c z, e) refl

  pub print_directive :
      (rounds : ℕ) (format : List ℕ) (p : Printed) {f : Flags} {width s : ℕ} {rest : List ℕ}
      → ((next format).0 == 0) ≡ false
      → read_directive (next format).0 (next format).1 ≡ (f, width, (s, rest))
      → print_loop outside word (suc rounds) (b'%' ∷ format) p
        ≡ elim (convert outside word s f width p) [
          | none ↦ some (format_error s p)
          | some none ↦ none
          | some (some q) ↦ print_loop outside word rounds rest q
        ]
  unfolding print_loop convert format_error
  print_directive rounds format p z e = rw z (
      ap {B = Option Printed}
        (λ (r : Flags × ℕ × Cursor). elim (convert outside word r.2.0 r.0 r.1 p) [
          | none ↦ some (format_error r.2.0 p)
          | some none ↦ none
          | some (some q) ↦ print_loop outside word rounds r.2.1 q
        ])
        e)

  empty_format : (rounds : ℕ) (p : Printed) → print_loop outside word (suc rounds) [] p ≡ some p
  unfolding print_loop
  empty_format rounds p = refl

  -- On the text of items, with more rounds than items, the loop of kvsprintf does what the items mean.
  pub print_loop-render :
      (items : List Item) (rounds : ℕ) (p : Printed)
      → All IsItem items
      → length items < rounds
      → print_loop outside word rounds (show items) p ≡ render outside word items p
  print_loop-render [] (suc rounds) p all h = empty_format rounds p
  print_loop-render (literal c ∷ items) (suc rounds) p all h =
      literal_step rounds c (show items) p all.0.0 all.0.1
      ∙ print_loop-render items rounds (record p { buffer = write_character c p.buffer }) all.1
          (omega arith)
  print_loop-render (directive d ∷ items) (suc rounds) p all h =
      print_directive rounds (text d ++ show items) p (text_start d (show items) all.0.0)
        (read_directive-text d (show items) all.0.1)
      ∙ after_convert (convert outside word d.specifier (flags_of d) (width_of d) p) d.specifier p
          (λ q. print_loop-render items rounds q all.1 (omega arith))
  print_loop-render items zero p all h = absurd (omega arith)
