-- ===== src/Format/Io.antt =====
-- crates/rasen-archive/src/format/io.rs: alignment, integers from a reader, conversions and the
-- cursor over a decoded table of contents. A `usize` has 64 bits.
pub mod Align
pub mod Cursor
use rasen_archive.Prelude.{
  ℕ, ◌+◌, ◌-◌, ◌^◌, ◌<◌, ◌≡◌, arith, List, [], ◌∷◌, Option, none, some, String,
}
use rasen_archive.Prelude.{ltb, if◌then◌else◌, length, take, drop, leb, bit_and}
use rasen_archive.Prelude.{u64_mod, u32_mod, checked_add, checked_sub, from_le_bytes}
use rasen_archive.Error.{
  Error, IoResult, Fallible, ok, err, panic, ◌>>=◌, guard, ok_or, from_io, sub_word, too_large,
  unexpected_eof,
}

-- `value + mask & !mask`; the plain subtraction wants a positive alignment.
unfoldable pub align_up : ℕ → ℕ → Fallible ℕ
align_up value alignment = do
  mask ← sub_word alignment 1
  v ← ok_or (checked_add value mask) (too_large "aligned offset")
  ok (bit_and v (u64_mod - 1 - mask))

-- `Read::read_exact` on a `std::io::Cursor`, whose state is the bytes that are left.
unfoldable pub read_exact : ℕ → List ℕ → IoResult (List ℕ × List ℕ)
read_exact n unread =
    if leb n (length unread)
    then ok (take n unread, drop n unread)
    else err (unexpected_eof "failed to fill whole buffer")

unfoldable pub read_word : ℕ → List ℕ → Fallible (ℕ × List ℕ)
read_word width unread = do
  (b, rest) ← from_io (read_exact width unread)
  ok (from_le_bytes b, rest)

unfoldable pub read_u16 : List ℕ → Fallible (ℕ × List ℕ)
read_u16 unread = read_word 2 unread

unfoldable pub read_u32 : List ℕ → Fallible (ℕ × List ℕ)
read_u32 unread = read_word 4 unread

unfoldable pub read_u64 : List ℕ → Fallible (ℕ × List ℕ)
read_u64 unread = read_word 8 unread

unfoldable pub usize_to_u32 : ℕ → String → Fallible ℕ
usize_to_u32 v what = if ltb v u32_mod then ok v else err (too_large what)

unfoldable pub usize_to_u64 : ℕ → String → Fallible ℕ
usize_to_u64 v what = if ltb v u64_mod then ok v else err (too_large what)

unfoldable pub u64_to_usize : ℕ → String → Fallible ℕ
u64_to_usize v what = if ltb v u64_mod then ok v else err (too_large what)

pub u64_to_usize-eq-ok :
    (v : ℕ) (what : String) {n : ℕ} → u64_to_usize v what ≡ ok n → (v < u64_mod) × (n ≡ v)
unfolding u64_to_usize
u64_to_usize-eq-ok v what h = ground arith

pub usize_to_u64-eq-ok : (v : ℕ) (what : String) {n : ℕ} → usize_to_u64 v what ≡ ok n → n ≡ v
unfolding usize_to_u64
usize_to_u64-eq-ok v what h = ground arith

pub usize_to_u32-eq-ok :
    (v : ℕ) (what : String) {n : ℕ} → usize_to_u32 v what ≡ ok n → (v < u32_mod) × (n ≡ v)
unfolding usize_to_u32
usize_to_u32-eq-ok v what h = ground arith

pub checked_add-eq-ok :
    (a b : ℕ) (e : Error) {n : ℕ}
    → ok_or (checked_add a b) e ≡ ok n
    → (a + b < u64_mod) × (n ≡ a + b)
checked_add-eq-ok a b e h = ground arith

pub checked_sub-eq-ok : (a b : ℕ) (e : Error) {n : ℕ} → ok_or (checked_sub a b) e ≡ ok n → n ≡ a - b
checked_sub-eq-ok a b e h = ground arith
