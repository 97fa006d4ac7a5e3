-- ===== src/Sink/Memory.antt =====
-- `std::io::Cursor<Vec<u8>>` as a destination.
use rasen_archive.Prelude.{
  ℕ, ◌+◌, ◌-◌, ◌≡◌, refl, ap, ◌∙◌, List, [], ◌++◌, append-nil, length, length-append, take, drop,
  take_whole, drop_beyond, replicate, arith, take-append, drop-append, drop-drop, take_all,
  drop_all, length-take, length-replicate, append_assoc,
}
use rasen_archive.Error.{ok}
use rasen_archive.Sink.{Sink, IsSink}

pub record Memory : Type 0 where
  pub contents : List ℕ
  pub position : ℕ

-- The bytes written from a position on; a gap before it is filled with zeroes.
abbrev pub overwrite : ℕ → List ℕ → List ℕ → List ℕ
overwrite k xs c = take k (c ++ replicate (k - length c) 0) ++ (xs ++ drop (k + length xs) c)

instance unfoldable pub memory_sink : Sink Memory
memory_sink = record {
  write_all = λ w xs.
      ok (record {
        contents = overwrite w.position xs w.contents;
        position = w.position + length xs;
      });
  seek_end = λ w. ok (length w.contents, record w { position = length w.contents });
  seek_start = λ w position. ok (position, record w { position = position });
}

abbrev pub at_end : List ℕ → Memory
at_end c = record { contents = c; position = length c }

overwrite_end : (c xs : List ℕ) → overwrite (length c) xs c ≡ c ++ xs
overwrite_end c xs =
    let gap : length c - length c ≡ 0 = omega arith in
    rw
      (
        gap,
        append-nil c,
        take_whole c,
        drop_beyond c (length c + length xs) (omega arith),
        append-nil xs,
      )
      refl

pub write_at_end : (c xs : List ℕ) → memory_sink.write_all (at_end c) xs ≡ ok (at_end (c ++ xs))
unfolding memory_sink
write_at_end c xs = rw (overwrite_end c xs, length-append c xs) refl

pub seek_end_memory :
    (w : Memory)
    → memory_sink.seek_end w ≡ ok (length w.contents, record w { position = length w.contents })
unfolding memory_sink
seek_end_memory w = refl

pub seek_start_memory :
    (w : Memory) (position : ℕ)
    → memory_sink.seek_start w position ≡ ok (position, record w { position = position })
unfolding memory_sink
seek_start_memory w position = refl

-- An empty destination, from its start on.
pub write_to_empty :
    (w : Memory) (xs : List ℕ)
    → w.contents ≡ []
    → memory_sink.write_all (record w { position = 0 }) xs ≡ ok (at_end xs)
write_to_empty w xs empty =
    ap (λ c. memory_sink.write_all (record { contents = c; position = 0 }) xs) empty
    ∙ write_at_end [] xs

-- Writing over the start of the destination.
pub write_over_start :
    (old new rest : List ℕ)
    → length old ≡ length new
    → memory_sink.write_all (record { contents = old ++ rest; position = 0 }) new
      ≡ ok (record { contents = new ++ rest; position = length new })
unfolding memory_sink
write_over_start old new rest same =
    let none_before : 0 + length new ≡ length new = omega arith in
    rw (none_before, ← same, drop_all old rest) refl

module _ (k : ℕ) (xs ys c : List ℕ) where
  abbrev before : List ℕ
  before = take k (c ++ replicate (k - length c) 0)

  length-before : length before ≡ k
  length-before = omega (
    arith,
    length-take k (c ++ replicate (k - length c) 0),
    length-append c (replicate {A = ℕ} (k - length c) 0),
    length-replicate {A = ℕ} (k - length c) 0,
  )

  abbrev behind : List ℕ
  behind = drop (k + length xs) c

  overwrite_twice : overwrite (k + length xs) ys (overwrite k xs c) ≡ overwrite k (xs ++ ys) c
  overwrite_twice =
      let sizes = length-append before (xs ++ behind) in
      let inner = length-append xs behind in
      let gap : k + length xs - length (before ++ (xs ++ behind)) ≡ 0 =
        omega (arith, length-before) in
      let left : k + length xs - length before ≡ length xs = omega (arith, length-before) in
      let right : k + length xs + length ys - length before - length xs ≡ length ys =
        omega (arith, length-before) in
      let sum : k + length xs + length ys ≡ k + length (xs ++ ys) =
        omega (arith, length-append xs ys) in
      let taken =
        take-append (k + length xs) before (xs ++ behind) (omega (arith, length-before)) in
      let dropped =
        drop-append (k + length xs + length ys) before (xs ++ behind)
          (omega (arith, length-before)) in
      let dropped' =
        drop-append (k + length xs + length ys - length before) xs behind
          (omega (arith, length-before)) in
      rw
        (
          gap,
          append-nil (before ++ (xs ++ behind)),
          taken,
          left,
          take_all xs behind,
          dropped,
          dropped',
          right,
          drop-drop (length ys) (k + length xs) c,
          sum,
          append_assoc before xs (ys ++ drop (k + length (xs ++ ys)) c),
          append_assoc xs ys (drop (k + length (xs ++ ys)) c),
        )
        refl

pub memory_sink-IsSink : IsSink memory_sink
unfolding memory_sink
memory_sink-IsSink = record {
  write_all-append = λ w xs ys.
      let sum : w.position + length xs + length ys ≡ w.position + length (xs ++ ys) =
        omega (arith, length-append xs ys) in
      rw (overwrite_twice w.position xs ys w.contents, sum) refl;
}
