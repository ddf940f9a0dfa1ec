-- ===== src/Printf/Start.antt =====
-- kprintf_init of arch/ia32/printf.c: the screen's pages are mapped and its lines made blank, and a page is
-- taken for kprintf_buffer. `rounds` is as for set_virtual_entry.
use rjk.Base.{
  ℕ, zero, suc, ◌+◌, ◌-◌, ◌*◌, ◌/◌, ◌%◌, ◌^◌, ◌<◌, ◌≤◌, ◌≡◌, refl, ◌∙◌, ◌⊎◌, inl, inr, true, false,
  ◌&&◌, Option, none, some, if◌then◌else◌, leb, ltb, u32, arith, Bool-cases,
}
use rjk.Memory.Bytes.{Bytes, kmemory_virtual_copy}
use rjk.Memory.Bytes.Copy.{kmemory_virtual_copy_lem}
use rjk.Memory.Virtual.{Space, kmemory_linear_page_map}
use rjk.Memory.Virtual.Allocate.{kmemory_virtual_page_allocate}

-- `for(i = 0; i < 80 * 25 * 2; i += 80 * 2)`, with `left` lines left.
unfoldable pub blank_lines : (left : ℕ) → (video_memory blank_line i : ℕ) → Bytes → Bytes
blank_lines zero video_memory blank_line i m = m
blank_lines (suc left) video_memory blank_line i m =
    blank_lines left video_memory blank_line (i + 160)
      (kmemory_virtual_copy (u32 (video_memory + i)) blank_line 160 m)

abbrev pub video_address : ℕ
video_address = 0x000B8000

-- kprintf_buffer, the bytes and the space.
unfoldable pub kprintf_init : (rounds blank_line : ℕ) → Bytes → Space → Option (ℕ × Bytes × Space)
unfolding blank_lines kmemory_linear_page_map kmemory_virtual_page_allocate
kprintf_init rounds blank_line m s =
    elim (kmemory_linear_page_map rounds s video_address (4000 / 4096 + 1)) [
      | none ↦ none
      | some (_, t) ↦
          let cleared = blank_lines 25 video_address blank_line 0 m in
          elim (kmemory_virtual_page_allocate rounds t 1 false) [
            | none ↦ none
            | some (buffer, u) ↦ some (buffer, cleared, u)
          ]
    ]

blank_lines_lem :
    (left video_memory blank_line i : ℕ) (m : Bytes)
    → video_memory + i + left * 160 < 2 ^ 32
    → blank_line + 160 < 2 ^ 32
    → (blank_line + 160 ≤ video_memory + i) ⊎ (video_memory + i + left * 160 ≤ blank_line)
    → (a : ℕ)
    → blank_lines left video_memory blank_line i m a ≡ (
        if leb (video_memory + i) a && ltb a (video_memory + i + left * 160)
        then m (blank_line + (a - (video_memory + i)) % 160)
        else m a)
unfolding blank_lines
blank_lines_lem zero video_memory blank_line i m small small' apart a = ground arith
blank_lines_lem (suc left) video_memory blank_line i m small small' apart a =
    let at : u32 (video_memory + i) ≡ video_memory + i = omega arith in
    let m1 = kmemory_virtual_copy (video_memory + i) blank_line 160 m in
    let copied = λ (b : ℕ).
      kmemory_virtual_copy_lem (video_memory + i) blank_line 160 m (ground arith) (omega arith)
        (omega arith) b in
    let ih =
      blank_lines_lem left video_memory blank_line (i + 160) m1 (omega arith) small' (ground arith)
        a in
    let first = video_memory + i in
    let column = (a - first) % 160 in
    let same : (leb (video_memory + (i + 160)) a ≡ true)
        → (a - (video_memory + (i + 160))) % 160 ≡ column =
      λ e. ground (arith, e) in
    let small_column : (leb first a ≡ true) → ltb a (first + 160) ≡ true → column ≡ a - first =
      λ e f. ground (arith, e, f) in
    let line_kept : m1 (blank_line + column) ≡ m (blank_line + column) =
      ground (arith, copied (blank_line + column), apart, small') in
    rw at (
      ih ∙ elim (Bool-cases (leb (video_memory + (i + 160)) a)) [
        | inl later ↦ rw (same later) (ground (arith, later, line_kept, copied a))
        | inr now ↦ elim (Bool-cases (leb first a)) [
          | inl on ↦
              let here : ltb a (first + 160) ≡ true = ground (arith, now) in
              rw (small_column on here) (ground (arith, now, on, here, copied a))
          | inr below ↦ ground (arith, now, below, copied a)
        ]
      ])

-- Where the screen's page can be mapped and a page for the buffer can be had, kprintf_init ends, with each of
-- the 4000 bytes of the screen set to the byte of the blank line for its column, and no other byte written.
pub kprintf_init_lem :
    (rounds blank_line : ℕ) (m : Bytes) (s t u : Space) (address buffer : ℕ)
    → blank_line + 160 < 2 ^ 32
    → (blank_line + 160 ≤ video_address) ⊎ (video_address + 4000 ≤ blank_line)
    → kmemory_linear_page_map rounds s video_address 1 ≡ some (address, t)
    → kmemory_virtual_page_allocate rounds t 1 false ≡ some (buffer, u)
    → (n : Bytes) × (kprintf_init rounds blank_line m s ≡ some (buffer, n, u))
      × ((k : ℕ) → k < 4000 → n (video_address + k) ≡ m (blank_line + k % 160))
      × ((a : ℕ) → (a < video_address) ⊎ (video_address + 4000 ≤ a) → n a ≡ m a)
unfolding kprintf_init
kprintf_init_lem rounds blank_line m s t u address buffer small apart mapped page =
    let n = blank_lines 25 video_address blank_line 0 m in
    let lines = blank_lines_lem 25 video_address blank_line 0 m (omega arith) small apart in
    (
      n,
      rw (mapped, kprintf_init) (rw page refl),
      λ k h.
          let column : video_address + k - video_address ≡ k = omega arith in
          let on : (leb video_address (video_address + k)
                && ltb (video_address + k) (video_address + 4000))
              ≡ true =
            ground (arith, h) in
          lines (video_address + k) ∙ rw (on, column) refl,
      λ a out.
          let off : (leb video_address a && ltb a (video_address + 4000)) ≡ false =
            ground (arith, out) in
          lines a ∙ rw off refl,
    )
