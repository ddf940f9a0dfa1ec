-- ===== src/Memory/Words/RoundTrip.antt =====
-- What the reads of arch/ia32/memory.c find of what its writes have stored.
use rjk.Base.{
  ℕ, ◌+◌, ◌/◌, ◌%◌, ◌^◌, ◌<◌, ◌≡◌, ◌≢◌, refl, sym, ap, ◌∙◌, arith, update, update_self, update_ne,
}
use rjk.Memory.Bytes.{Bytes}
use rjk.Memory.Words.{
  kmemory_linear_read_kuint16, kmemory_linear_read_kuint32, kmemory_linear_read_kuint64,
  kmemory_linear_write_kuint16, kmemory_linear_write_kuint32, kmemory_linear_write_kuint64,
}

-- The byte at a is none of the n from `address` on.
abbrev pub Outside : (n address a : ℕ) → Type 0
Outside n address a = (k : ℕ) → k < n → a ≢ address + k

at_zero : (address : ℕ) → address + 0 ≡ address
at_zero address = omega arith

-- A part of the bytes, from d on.
Outside-part : (n d k address a : ℕ) → d + k ≡ n → Outside n address a → Outside k (address + d) a
Outside-part n d k address a e out j lt p = out (d + j) (omega arith) (omega (arith, p))

Outside-less : (n k address a : ℕ) → k < n → Outside n address a → Outside k address a
Outside-less n k address a h out j lt = out j (omega arith)

module _ (m : Bytes) where
  kuint16_read :
      (address value : ℕ)
      → kmemory_linear_read_kuint16 (kmemory_linear_write_kuint16 m address value) address
        ≡ value % 2 ^ 16
  unfolding kmemory_linear_read_kuint16 kmemory_linear_write_kuint16
  kuint16_read address value =
      let m1 = update m address (value % 2 ^ 8) in
      let high = value / 2 ^ 8 % 2 ^ 8 in
      let ne : address ≢ address + 1 = λ e. absurd (omega (arith, e)) in
      let first = update_ne m1 (address + 1) address high ne in
      let second = update_self m1 (address + 1) high in
      rw (first, update_self m address (value % 2 ^ 8), second) (omega arith)

  kuint16_other :
      (address value a : ℕ)
      → Outside 2 address a
      → kmemory_linear_write_kuint16 m address value a ≡ m a
  unfolding kmemory_linear_write_kuint16
  kuint16_other address value a out =
      let n1 : a ≢ address = λ e. out 0 (omega arith) (e ∙ sym (at_zero address)) in
      ground (arith, n1, out 1)

-- What a read of 16 bits sees.
kuint16_same :
    (m m' : Bytes) (address : ℕ)
    → m' address ≡ m address
    → m' (address + 1) ≡ m (address + 1)
    → kmemory_linear_read_kuint16 m' address ≡ kmemory_linear_read_kuint16 m address
unfolding kmemory_linear_read_kuint16
kuint16_same m m' address e1 e2 = rw (e1, e2) refl

module _ (m : Bytes) where
  kuint32_read :
      (address value : ℕ)
      → kmemory_linear_read_kuint32 (kmemory_linear_write_kuint32 m address value) address
        ≡ value % 2 ^ 32
  unfolding kmemory_linear_read_kuint32 kmemory_linear_write_kuint32
  kuint32_read address value =
      let m1 = kmemory_linear_write_kuint16 m address value in
      let b = address + 2 in
      let m2 = kmemory_linear_write_kuint16 m1 b (value / 2 ^ 16) in
      let low_kept : kmemory_linear_read_kuint16 m2 address
          ≡ kmemory_linear_read_kuint16 m1 address =
        kuint16_same m1 m2 address
          (kuint16_other m1 b (value / 2 ^ 16) address λ k lt e. absurd (omega (arith, e)))
          (kuint16_other m1 b (value / 2 ^ 16) (address + 1) λ k lt e. absurd (omega (arith, e))) in
      rw (low_kept, kuint16_read m address value, kuint16_read m1 b (value / 2 ^ 16)) (omega arith)

  kuint32_other :
      (address value a : ℕ)
      → Outside 4 address a
      → kmemory_linear_write_kuint32 m address value a ≡ m a
  unfolding kmemory_linear_write_kuint32
  kuint32_other address value a out =
      kuint16_other (kmemory_linear_write_kuint16 m address value) (address + 2) (value / 2 ^ 16) a
        (Outside-part 4 2 2 address a (omega arith) out)
      ∙ kuint16_other m address value a (Outside-less 4 2 address a (omega arith) out)

kuint32_same :
    (m m' : Bytes) (address : ℕ)
    → ((k : ℕ) → k < 4 → m' (address + k) ≡ m (address + k))
    → kmemory_linear_read_kuint32 m' address ≡ kmemory_linear_read_kuint32 m address
unfolding kmemory_linear_read_kuint32 kmemory_linear_read_kuint16
kuint32_same m m' address e =
    let z : address + 0 ≡ address = at_zero address in
    let third : address + 2 + 1 ≡ address + 3 = omega arith in
    let e0 : m' address ≡ m address = ap m' (sym z) ∙ e 0 (omega arith) ∙ ap m z in
    rw (third, e0, e 1 (omega arith), e 2 (omega arith), e 3 (omega arith)) refl

-- A read of 64 bits at an address where 64 bits have been written yields the value written, modulo 2 ^ 64,
-- and the write changes none but its 8 bytes.
pub kuint64_round_trip :
    (m : Bytes) (address value : ℕ)
    → (kmemory_linear_read_kuint64 (kmemory_linear_write_kuint64 m address value) address
        ≡ value % 2 ^ 64)
      × ((a : ℕ) → Outside 8 address a → kmemory_linear_write_kuint64 m address value a ≡ m a)
unfolding kmemory_linear_read_kuint64 kmemory_linear_write_kuint64
kuint64_round_trip m address value =
    let m1 = kmemory_linear_write_kuint32 m address value in
    let b = address + 4 in
    let m2 = kmemory_linear_write_kuint32 m1 b (value / 2 ^ 32) in
    let low_kept : kmemory_linear_read_kuint32 m2 address ≡ kmemory_linear_read_kuint32 m1 address =
      kuint32_same m1 m2 address λ k lt.
        kuint32_other m1 b (value / 2 ^ 32) (address + k) λ j jt e. absurd (omega (arith, e)) in
    (
      rw (low_kept, kuint32_read m address value, kuint32_read m1 b (value / 2 ^ 32)) (omega arith),
      λ a out.
          kuint32_other m1 b (value / 2 ^ 32) a (Outside-part 8 4 4 address a (omega arith) out)
          ∙ kuint32_other m address value a (Outside-less 8 4 address a (omega arith) out),
    )
