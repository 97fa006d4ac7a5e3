-- ===== src/Format/Header/RoundTrip.antt =====
-- `write_header` and `read_header` of crates/rasen-archive/src/format/header.rs, together.
use rasen_archive.Prelude.{ℕ, ◌^◌, ◌<◌, ◌≡◌, refl, ap, ◌∙◌, List, ◌++◌, append_assoc, arith}
use rasen_archive.Prelude.{bytes_eq_self, length, length-append, to_le_bytes, length-to_le_bytes}
use rasen_archive.Prelude.{from_le_bytes-to_le_bytes, le→leb, take_all, drop_all}
use rasen_archive.Prelude.{u16_mod, u32_mod, u64_mod}
use rasen_archive.Error.{IoResult, ok, err, panic, ◌>>=◌, from_io}
use rasen_archive.Sink.{Sink, IsSink}
use rasen_archive.Format
use rasen_archive.Format.Io.{read_exact, read_word, read_u16, read_u32, read_u64}
use rasen_archive.Format.Header.{Header, write_header, read_header}

-- Each field fits its width.
pub record IsHeader (h : Header) : Type 0 where
  pub version_fits : h.version < u16_mod
  pub flags_fit : h.flags < u16_mod
  pub header_size_fits : h.header_size < u32_mod
  pub alignment_fits : h.alignment < u32_mod
  pub chunk_size_fits : h.chunk_size < u32_mod
  pub entry_count_fits : h.entry_count < u32_mod
  pub chunk_count_fits : h.chunk_count < u32_mod
  pub toc_offset_fits : h.toc_offset < u64_mod
  pub toc_size_fits : h.toc_size < u64_mod
  pub toc_raw_size_fits : h.toc_raw_size < u64_mod
  pub toc_hash_fits : h.toc_hash < u64_mod

-- The layout of the header, field after field.
pub header_bytes : Header → List ℕ
header_bytes h =
    Format.magic
    ++ (to_le_bytes 2 h.version
        ++ (to_le_bytes 2 h.flags
            ++ (to_le_bytes 4 h.header_size
                ++ (to_le_bytes 4 h.alignment
                    ++ (to_le_bytes 4 h.chunk_size
                        ++ (to_le_bytes 4 h.entry_count
                            ++ (to_le_bytes 4 h.chunk_count
                                ++ (to_le_bytes 8 h.toc_offset
                                    ++ (to_le_bytes 8 h.toc_size
                                        ++ (to_le_bytes 8 h.toc_raw_size
                                            ++ to_le_bytes 8 h.toc_hash))))))))))

pub length-header_bytes : (h : Header) → length (header_bytes h) ≡ Format.header_size
unfolding header_bytes
length-header_bytes h = simp (length-append, length-to_le_bytes)

read_exact-append :
    (n : ℕ) (xs rest : List ℕ) → length xs ≡ n → read_exact n (xs ++ rest) ≡ ok (xs, rest)
unfolding read_exact
read_exact-append n xs rest e = rw (
  ← e,
  le→leb (length xs) (length (xs ++ rest)) (omega (arith, length-append xs rest)),
  take_all xs rest,
  drop_all xs rest,
)

module _ (x : ℕ) (rest : List ℕ) where
  read_word-to_le_bytes :
      (width : ℕ) → x < 256 ^ width → read_word width (to_le_bytes width x ++ rest) ≡ ok (x, rest)
  unfolding read_word
  read_word-to_le_bytes width h = rw (
    read_exact-append width (to_le_bytes width x) rest (length-to_le_bytes width x),
    from_le_bytes-to_le_bytes width x h,
  )

  read_u16-to_le_bytes : x < u16_mod → read_u16 (to_le_bytes 2 x ++ rest) ≡ ok (x, rest)
  unfolding read_u16
  read_u16-to_le_bytes h = read_word-to_le_bytes 2 h

  read_u32-to_le_bytes : x < u32_mod → read_u32 (to_le_bytes 4 x ++ rest) ≡ ok (x, rest)
  unfolding read_u32
  read_u32-to_le_bytes h = read_word-to_le_bytes 4 h

  read_u64-to_le_bytes : x < u64_mod → read_u64 (to_le_bytes 8 x ++ rest) ≡ ok (x, rest)
  unfolding read_u64
  read_u64-to_le_bytes h = read_word-to_le_bytes 8 h

read_header-header_bytes :
    (h : Header) (rest : List ℕ) → IsHeader h → read_header (header_bytes h ++ rest) ≡ ok (h, rest)
unfolding read_header header_bytes
read_header-header_bytes h rest v = simp (
  append_assoc,
  magic_read,
  bytes_eq_self Format.magic,
  read_u16-to_le_bytes _ _ v.version_fits,
  read_u16-to_le_bytes _ _ v.flags_fit,
  read_u32-to_le_bytes _ _ v.header_size_fits,
  read_u32-to_le_bytes _ _ v.alignment_fits,
  read_u32-to_le_bytes _ _ v.chunk_size_fits,
  read_u32-to_le_bytes _ _ v.entry_count_fits,
  read_u32-to_le_bytes _ _ v.chunk_count_fits,
  read_u64-to_le_bytes _ _ v.toc_offset_fits,
  read_u64-to_le_bytes _ _ v.toc_size_fits,
  read_u64-to_le_bytes _ _ v.toc_raw_size_fits,
  read_u64-to_le_bytes _ _ v.toc_hash_fits,
)
  where
    magic_read : (more : List ℕ) → read_exact 4 (Format.magic ++ more) ≡ ok (Format.magic, more)
    magic_read more = read_exact-append 4 Format.magic more refl

from_io-bind :
    {W : Type 0} (m : IoResult W) (f : W → IoResult W)
    → (from_io m >>= λ w'. from_io (f w')) ≡ from_io (m >>= f)
from_io-bind (ok w) f = refl
from_io-bind (err e) f = refl
from_io-bind panic f = refl

module _ {W : Type 0} ⦃s : Sink W⦄ (lawful : IsSink s) where
  pub write_all_twice :
      (w : W) (xs ys : List ℕ)
      → (from_io (s.write_all w xs) >>= λ w'. from_io (s.write_all w' ys))
        ≡ from_io (s.write_all w (xs ++ ys))
  write_all_twice w xs ys =
      from_io-bind (s.write_all w xs) (λ w'. s.write_all w' ys)
      ∙ ap from_io (lawful.write_all-append w xs ys)

  pub write_header-bytes :
      (w : W) (h : Header) → write_header w h ≡ from_io (s.write_all w (header_bytes h))
  unfolding write_header header_bytes
  write_header-bytes w h = simp write_all_twice

  -- For a header whose fields fit their widths, `write_header` writes 60 bytes, and `read_header`
  -- reads them back to the header, whatever follows.
  pub read_header-write_header :
      (w : W) (h : Header)
      → IsHeader h
      → (bytes : List ℕ) × (write_header w h ≡ from_io (s.write_all w bytes))
        × (length bytes ≡ Format.header_size)
        × ((rest : List ℕ) → read_header (bytes ++ rest) ≡ ok (h, rest))
  read_header-write_header w h v = (
    header_bytes h,
    write_header-bytes w h,
    length-header_bytes h,
    λ rest. read_header-header_bytes h rest v,
  )
