-- ===== src/Pack/Packer/Failed.antt =====
-- The flag `failed` of the packer of crates/rasen-archive/src/pack/writer.rs.
use rasen_archive.Prelude.{ℕ, not, ◌≡◌, refl, ap, sym, ◌∙◌, List, true, false, if◌then◌else◌, Bool}
use rasen_archive.Error.{Error, Fallible, ok, err, panic, ◌>>=◌, guard, incomplete_pack}
use rasen_archive.Platform.{Platform}
use rasen_archive.Sink.{Sink}
use rasen_archive.Pack.Input.{Reader}
use rasen_archive.Pack.Model.{Packer, after_add}
use rasen_archive.Pack.Packer.{add_reader_inner, add_reader, finish}

module _ {W : Type 0} where
  chosen-failed :
      (failed : Bool) (p p' : Packer W) (result : Fallible (Packer W)) (e : Error)
      → p.failed ≡ failed
      → ◌≡◌ {A = Fallible (Unit {0}) × Packer W}
          (if failed then (err incomplete_pack, p) else after_add p result)
          (err e, p')
      → p'.failed ≡ true
  chosen-failed true p p' result e before h = ap (λ d. d.1.failed) (sym h) ∙ before
  chosen-failed false p p' (ok q) e before h = let c = ap (λ d. d.0) h in absurd cc
  chosen-failed false p p' (err d) e before h = ap (λ d. d.1.failed) (sym h)
  chosen-failed false p p' panic e before h = let c = ap (λ d. d.0) h in absurd cc

guard_stops :
    {B : Type 0} (b : Bool) (k : Unit {0} → Fallible B)
    → b ≡ true
    → (guard (not b) incomplete_pack >>= k) ≡ err incomplete_pack
guard_stops true k h = refl
guard_stops false k h = absurd cc

module _ {W : Type 0} ⦃s : Sink W⦄ (env : Platform) {R : Type 0} ⦃r : Reader R⦄ where
  -- After an error of `add_reader`, every further `add_reader` and `finish` is refused, and leaves the
  -- packer as it is.
  pub add_reader-failed :
      (fuel fuel' : ℕ) (p p' : Packer W) (path path' : List ℕ) (reader reader' : R) (e : Error)
      → add_reader env fuel p path reader ≡ (err e, p')
      → (add_reader env fuel' p' path' reader' ≡ (err incomplete_pack, p'))
        × (finish env p' ≡ err incomplete_pack)
  unfolding add_reader finish
  add_reader-failed fuel fuel' p p' path path' reader reader' e h =
      let failed = chosen-failed p.failed p p' (add_reader_inner env fuel p path reader) e refl h in
      (
        ap
            (λ b.
              if b
              then (err incomplete_pack, p')
              else after_add p' (add_reader_inner env fuel' p' path' reader'))
            failed,
        guard_stops p'.failed _ failed,
      )
