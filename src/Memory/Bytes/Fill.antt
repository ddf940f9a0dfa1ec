-- ===== src/Memory/Bytes/Fill.antt =====
-- What kmemory_virtual_fill of arch/ia32/memory.c writes.
use rjk.Base.{
  ℕ, zero, suc, ◌+◌, ◌-◌, ◌*◌, ◌/◌, ◌%◌, ◌^◌, ◌<◌, ◌≤◌, ◌≡◌, sym, inl, inr, ◌&&◌, leb, ltb, ◌==◌,
  if◌then◌else◌, u8, u32, test_bit, update, arith, Bool-cases, test_bit-pow,
}
use mathlib.Core.Path.{subst}
use rjk.Memory.Bytes.{Bytes, stosw, rep_stosw, kmemory_virtual_fill}

-- How far a fill has come, with `even` and `odd` for the bytes at even and odd places.
pub record Filled (pointer even odd n : ℕ) (m : Bytes) (edi : ℕ) (m' : Bytes) : Type 0 where
  pub edi_eq : edi ≡ pointer + n
  pub bytes :
      (a : ℕ)
      → m' a ≡ (
          if leb pointer a && ltb a (pointer + n)
          then (if (a - pointer) % 2 == 0 then even else odd)
          else m a)

module _ (pointer even odd size : ℕ) (m : Bytes) (small : pointer + size < 2 ^ 32) where
  byte-Filled :
      (n v edi : ℕ) (m' : Bytes)
      → v ≡ (if n % 2 == 0 then even else odd)
      → Filled pointer even odd n m edi m'
      → Filled pointer even odd (n + 1) m (edi + 1) (update m' edi v)
  byte-Filled n v edi m' e c = record {
    edi_eq = omega (arith, c.edi_eq);
    bytes = λ a. ground (arith, c.bytes a, c.edi_eq, e);
  }

  rep-Filled :
      (rounds n edi : ℕ) (m' : Bytes)
      → n + 2 * rounds ≤ size
      → n % 2 ≡ 0
      → Filled pointer even odd n m edi m'
      → Filled pointer even odd
          (n + 2 * rounds)
          m
          (rep_stosw rounds (even, odd) (edi, m')).0
          (rep_stosw rounds (even, odd) (edi, m')).1
  unfolding rep_stosw stosw
  rep-Filled zero n edi m' h z c = subst (λ t. Filled pointer even odd t m edi m') (omega arith) c
  rep-Filled (suc rounds) n edi m' h z c =
      let c1 = byte-Filled n even edi m' (ground arith) c in
      let c2 = byte-Filled (n + 1) odd (edi + 1) (update m' edi even) (ground arith) c1 in
      let m2 = update (update m' edi even) (edi + 1) odd in
      let next : u32 (edi + 2) ≡ edi + 1 + 1 = omega (arith, c.edi_eq) in
      let c3 = subst (λ e. Filled pointer even odd (n + 1 + 1) m e m2) (sym next) c2 in
      subst
        (λ t.
          Filled pointer even odd t m (rep_stosw rounds (even, odd) (u32 (edi + 2), m2)).0
            (rep_stosw rounds (even, odd) (u32 (edi + 2), m2)).1)
        (omega arith)
        (rep-Filled rounds (n + 1 + 1) (u32 (edi + 2)) m2 (omega arith) (omega arith) c3)

-- A fill that does not wrap around the address space writes the value at the odd places, counted from 0,
-- and what %ah held before at the even ones, the last of an odd size included; it writes nowhere else.
pub kmemory_virtual_fill_lem :
    (ah pointer size value : ℕ) (m : Bytes)
    → pointer + size < 2 ^ 32
    → (a : ℕ)
    → kmemory_virtual_fill ah pointer size value m a ≡ (
        if leb pointer a && ltb a (pointer + size)
        then (if (a - pointer) % 2 == 0 then ah else u8 value)
        else m a)
unfolding kmemory_virtual_fill
kmemory_virtual_fill_lem ah pointer size value m small a =
    let start : Filled pointer ah (u8 value) 0 m pointer m = record {
      edi_eq = omega arith;
      bytes = λ a. ground arith;
    } in
    let words =
      rep-Filled pointer ah (u8 value) size m small (size / 2) 0 pointer m (omega arith)
        (omega arith) start in
    let s = rep_stosw (size / 2) (ah, u8 value) (pointer, m) in
    let last =
      byte-Filled pointer ah (u8 value) size m small (0 + 2 * (size / 2)) ah s.0 s.1 (ground arith)
        words in
    elim (Bool-cases (test_bit size 0)) [
      | inl odd ↦
          let n : 0 + 2 * (size / 2) + 1 ≡ size = ground (arith, odd, test_bit-pow size 0) in
          rw odd (
            (subst (λ n. Filled pointer ah (u8 value) n m (s.0 + 1) (update s.1 s.0 ah)) n
                last).bytes
              a)
      | inr even ↦
          let n : 0 + 2 * (size / 2) ≡ size = ground (arith, even, test_bit-pow size 0) in
          rw even ((subst (λ n. Filled pointer ah (u8 value) n m s.0 s.1) n words).bytes a)
    ]
