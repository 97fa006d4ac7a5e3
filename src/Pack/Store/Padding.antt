-- ===== src/Pack/Store/Padding.antt =====
-- `align` of crates/rasen-archive/src/pack/writer.rs on a destination in memory.
use rasen_archive.Prelude.{
  ℕ, zero, suc, ◌+◌, ◌-◌, ◌*◌, ◌^◌, ◌<◌, ◌≤◌, min, ◌≡◌, refl, ap, List, ◌∷◌, ◌++◌,
}
use rasen_archive.Prelude.{append-nil, append_assoc, length, replicate, arith, u64_mod, le→leb}
use rasen_archive.Prelude.Bits.{one-le-two-pow}
use native.Mathlib.Decide.{dec_le}
use rasen_archive.Error.{ok, err, too_large}
use rasen_archive.Sink.Memory.{Memory, memory_sink, at_end, write_at_end}
use rasen_archive.Format.Io.Align.{align_up-least, align_up_overflow}
use rasen_archive.Pack.Model.{Packer}
use rasen_archive.Pack.Store.{pad, align}

replicate_two : (j n : ℕ) → j ≤ n → replicate {A = ℕ} j 0 ++ replicate (n - j) 0 ≡ replicate n 0
replicate_two zero n h = let e : n - 0 ≡ n = omega arith in rw e refl
replicate_two (suc j) zero h = absurd (omega arith)
replicate_two (suc j) (suc n) h =
    let e : suc n - suc j ≡ n - j = omega arith in
    rw e (ap (λ t. 0 ∷ t) (replicate_two j n (omega arith)))

pad-at_end :
    (fuel : ℕ) (c : List ℕ) (n : ℕ)
    → n ≤ fuel
    → pad fuel (at_end c) n ≡ ok (at_end (c ++ replicate n 0))
unfolding pad
pad-at_end fuel c zero h = rw (append-nil c) refl
pad-at_end zero c (suc n) h = absurd (omega arith)
pad-at_end (suc fuel) c (suc n) h =
    let j : ℕ = min (suc n) 4096 in
    let rest = pad-at_end fuel (c ++ replicate j 0) (suc n - j) (omega arith) in
    rw
      (
        write_at_end c (replicate j 0),
        rest,
        append_assoc c (replicate j 0) (replicate (suc n - j) 0),
        replicate_two j (suc n) (omega arith),
      )
      refl

-- The packer after padding.
abbrev pub padded : Packer Memory → List ℕ → ℕ → Packer Memory
padded p c n = record p { writer = at_end (c ++ replicate n 0); offset = length c + n }

module _ (p : Packer Memory) (c : List ℕ) (k : ℕ) where
  -- If `align` succeeds, then it has padded with zeroes to a multiple of the alignment.
  pub align-padded :
      {p' : Packer Memory}
      → p.writer ≡ at_end c
      → p.offset ≡ length c
      → k ≤ 20
      → p.options.alignment ≡ 2 ^ k
      → align p ≡ ok p'
      → (n : ℕ) × (q : ℕ) × (length c + n ≡ q * 2 ^ k)
        × (length c + n < u64_mod)
        × (padded p c n ≡ p')
  unfolding align
  align-padded w o small a h = elim (dec_le (length c + 2 ^ k) u64_mod) [
    | yes room ↦
        let (q, up, above, below) = align_up-least k (length c) (omega arith) room in
        let whole : length c + (q * 2 ^ k - length c) ≡ q * 2 ^ k = omega arith in
        let aligned : align p ≡ ok (padded p c (q * 2 ^ k - length c)) =
          rw
            (
              w,
              o,
              a,
              up,
              le→leb _ _ above,
              pad-at_end (q * 2 ^ k - length c) c (q * 2 ^ k - length c) (omega arith),
              whole,
            )
            refl in
        (q * 2 ^ k - length c, q, whole, omega arith, cc)
    | no full ↦
        let e = align_up_overflow (length c) (2 ^ k) (one-le-two-pow k) (omega arith) in
        let failed : align p ≡ err (too_large "aligned offset") = rw (w, o, a, e) refl in
        absurd (cc)
  ]
