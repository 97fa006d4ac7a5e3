-- ===== src/Format/Io/Cursor.antt =====
-- `Cursor` of crates/rasen-archive/src/format/io.rs, and lemmas on it.
use rasen_archive.Prelude.{ℕ, ◌+◌, ◌^◌, ◌<◌, List, [], ◌++◌, Bool, length, ◌==◌, slice, checked_add}
use rasen_archive.Prelude.{from_le_bytes, to_le_bytes, u16_mod, u32_mod, u64_mod, lt→ltb}
use rasen_archive.Prelude.{length-to_le_bytes, from_le_bytes-to_le_bytes, slice_middle}
use rasen_archive.Prelude.{length-append, append_assoc, ◌≡◌, refl, arith}
use rasen_archive.Error.{Fallible, ok, ◌>>=◌, ok_or, corrupt}

pub record Cursor : Type 0 where
  pub bytes : List ℕ
  pub pos : ℕ

unfoldable pub new : List ℕ → Cursor
new bytes = record { bytes = bytes; pos = 0 }

unfoldable pub take : ℕ → Cursor → Fallible (List ℕ × Cursor)
take n c = do
  end ← ok_or (checked_add c.pos n) (corrupt "TOC cursor overflow")
  taken ← ok_or (slice c.bytes c.pos end) (corrupt "truncated TOC")
  ok (taken, record c { pos = end })

-- `take` yields as many bytes as it is asked for, so `try_into` an array cannot fail.
unfoldable pub take_word : ℕ → Cursor → Fallible (ℕ × Cursor)
take_word width c = do (b, c') ← take width c; ok (from_le_bytes b, c')

unfoldable pub u16 : Cursor → Fallible (ℕ × Cursor)
u16 c = take_word 2 c

unfoldable pub u32 : Cursor → Fallible (ℕ × Cursor)
u32 c = take_word 4 c

unfoldable pub u64 : Cursor → Fallible (ℕ × Cursor)
u64 c = take_word 8 c

unfoldable pub is_empty : Cursor → Bool
is_empty c = c.pos == length c.bytes

-- The cursor that has read `front` and has `rest` before it.
unfoldable pub between : List ℕ → List ℕ → Cursor
between front rest = record { bytes = front ++ rest; pos = length front }

pub new-between : (bytes : List ℕ) → new bytes ≡ between [] bytes
unfolding new between
new-between bytes = refl

pub take-between :
    (front xs rest : List ℕ) (n : ℕ)
    → length xs ≡ n
    → length front + n < u64_mod
    → take n (between front (xs ++ rest)) ≡ ok (xs, between (front ++ xs) rest)
unfolding take between
take-between front xs rest n e fits = rw (
  lt→ltb (length front + n) u64_mod fits,
  slice_middle front xs rest (length front) (length front + n) refl (omega arith),
  length-append front xs,
  append_assoc front xs rest,
  e,
)

module _ (x : ℕ) (front rest : List ℕ) where
  take_word-between :
      (width : ℕ)
      → x < 256 ^ width
      → length front + width < u64_mod
      → take_word width (between front (to_le_bytes width x ++ rest))
        ≡ ok (x, between (front ++ to_le_bytes width x) rest)
  unfolding take_word
  take_word-between width small fits = rw (
    take-between front (to_le_bytes width x) rest width (length-to_le_bytes width x) fits,
    from_le_bytes-to_le_bytes width x small,
  )

  pub u16-between :
      x < u16_mod
      → length front + 2 < u64_mod
      → u16 (between front (to_le_bytes 2 x ++ rest))
        ≡ ok (x, between (front ++ to_le_bytes 2 x) rest)
  unfolding u16
  u16-between = take_word-between 2

  pub u32-between :
      x < u32_mod
      → length front + 4 < u64_mod
      → u32 (between front (to_le_bytes 4 x ++ rest))
        ≡ ok (x, between (front ++ to_le_bytes 4 x) rest)
  unfolding u32
  u32-between = take_word-between 4

  pub u64-between :
      x < u64_mod
      → length front + 8 < u64_mod
      → u64 (between front (to_le_bytes 8 x ++ rest))
        ≡ ok (x, between (front ++ to_le_bytes 8 x) rest)
  unfolding u64
  u64-between = take_word-between 8

pub is_empty-between : (front : List ℕ) → is_empty (between front []) ≡ Bool.true
unfolding is_empty between
is_empty-between front = ground (arith, length-append front [])
