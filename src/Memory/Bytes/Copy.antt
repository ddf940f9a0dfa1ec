-- ===== src/Memory/Bytes/Copy.antt =====
-- What kmemory_virtual_copy of arch/ia32/memory.c copies.
use rjk.Base.{
  ℕ, zero, suc, ◌+◌, ◌-◌, ◌*◌, ◌/◌, ◌^◌, ◌<◌, ◌≤◌, ◌≡◌, refl, ◌⊎◌, inl, inr, Bool, true, false,
  ◌&&◌, leb, ltb, if◌then◌else◌, test_bit, arith, test_bit-pow,
}
use mathlib.Core.Path.{subst}
use rjk.Memory.Bytes.{Bytes, Registers, movs, rep, kmemory_virtual_copy}

-- A copy of size bytes is right when it does not overlap, or when the destination is in front.
abbrev pub IsForward : (destination source size : ℕ) → Type 0
IsForward destination source size = (destination ≤ source) ⊎ (source + size ≤ destination)

-- How far a copy has come: `n` bytes have been moved, and the rest of the memory is as it was.
pub record Copied (destination source n : ℕ) (m : Bytes) (s : Registers × Bytes) : Type 0 where
  pub edi : s.0.0 ≡ destination + n
  pub esi : s.0.1 ≡ source + n
  pub bytes :
      (a : ℕ)
      → s.1 a ≡ (
          if leb destination a && ltb a (destination + n)
          then m (source + (a - destination))
          else m a)

module _ (destination source size : ℕ) (m : Bytes) (forward : IsForward destination source size)
    (destination_lt : destination + size < 2 ^ 32) (source_lt : source + size < 2 ^ 32) where
  -- The byte that the next move reads has not been written yet.
  unwritten :
      (n a : ℕ)
      → destination + n ≤ a
      → a < destination + size
      → (leb destination (source + (a - destination))
          && ltb (source + (a - destination)) (destination + n))
        ≡ false
  unwritten n a low high = elim forward [ inl before ↦ ground arith | inr behind ↦ ground arith ]

  in_move :
      (n k a : ℕ) (s : Registers × Bytes)
      → n + k ≤ size
      → Copied destination source n m s
      → destination + n ≤ a
      → a < destination + n + k
      → s.1 (s.0.1 + (a - s.0.0)) ≡ m (source + (a - destination))
  in_move n k a s h c low high =
      let at : s.0.1 + (a - s.0.0) ≡ source + (a - destination) = omega (arith, c.edi, c.esi) in
      rw (at, c.bytes (source + (a - destination)), unwritten n a low (omega arith)) refl

  movs-Copied :
      (n k : ℕ) (s : Registers × Bytes)
      → n + k ≤ size
      → Copied destination source n m s
      → Copied destination source (n + k) m (movs k s)
  unfolding movs
  movs-Copied n k s h c = record {
    edi = omega (arith, c.edi);
    esi = omega (arith, c.esi);
    bytes = λ a. ground (arith, c.bytes a, c.edi, in_move n k a s h c);
  }

  rep-Copied :
      (rounds n : ℕ) (s : Registers × Bytes)
      → n + 4 * rounds ≤ size
      → Copied destination source n m s
      → Copied destination source (n + 4 * rounds) m (rep rounds (movs 4) s)
  unfolding rep
  rep-Copied zero n s h c = subst (λ t. Copied destination source t m s) (omega arith) c
  rep-Copied (suc rounds) n s h c =
      subst (λ t. Copied destination source t m (rep rounds (movs 4) (movs 4 s))) (omega arith)
        (rep-Copied rounds (n + 4) (movs 4 s) (omega arith) (movs-Copied n 4 s (omega arith) c))

  start : Copied destination source 0 m ((destination, source), m)
  start = record { edi = omega arith; esi = omega arith; bytes = λ a. ground arith }

  part :
      (b : Bool) (n k : ℕ) (s : Registers × Bytes)
      → n + (if b then k else 0) ≤ size
      → Copied destination source n m s
      → Copied destination source (n + (if b then k else 0)) m (if b then movs k s else s)
  part true n k s h c = movs-Copied n k s h c
  part false n k s h c = subst (λ t. Copied destination source t m s) (omega arith) c

  sizes :
      4 * (size / 4) + (if test_bit size 1 then 2 else 0) + (if test_bit size 0 then 1 else 0)
      ≡ size
  sizes = ground (arith, test_bit-pow size 1, test_bit-pow size 0)

  whole : Copied destination source size m (
      (λ (s1 : Registers × Bytes).
          let s2 = if test_bit size 1 then movs 2 s1 else s1 in
          if test_bit size 0 then movs 1 s2 else s2)
        (rep (size / 4) (movs 4) ((destination, source), m)))
  whole =
      let s1 = rep (size / 4) (movs 4) ((destination, source), m) in
      let s2 = if test_bit size 1 then movs 2 s1 else s1 in
      let s3 = if test_bit size 0 then movs 1 s2 else s2 in
      let c1 = rep-Copied (size / 4) 0 ((destination, source), m) (omega arith) start in
      let c2 = part (test_bit size 1) (0 + 4 * (size / 4)) 2 s1 (omega (arith, sizes)) c1 in
      let c3 =
        part (test_bit size 0) (0 + 4 * (size / 4) + (if test_bit size 1 then 2 else 0)) 1 s2
          (omega (arith, sizes)) c2 in
      subst (λ t. Copied destination source t m s3) (omega (arith, sizes)) c3

  -- A copy that does not wrap around the address space, whose destination starts at or below its source or
  -- behind its end, is exact: each byte of the destination gets the byte that was at its place in the source
  -- before, and every other byte stays as it was.
  pub kmemory_virtual_copy_lem :
      (a : ℕ)
      → kmemory_virtual_copy destination source size m a ≡ (
          if leb destination a && ltb a (destination + size)
          then m (source + (a - destination))
          else m a)
  unfolding kmemory_virtual_copy
  kmemory_virtual_copy_lem a = whole.bytes a
