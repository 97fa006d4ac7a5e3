-- ===== src/Error.antt =====
-- crates/rasen-archive/src/error.rs: the errors, and results with `?` as a monad. A result is `panic`
-- where Rust would unwind: an index out of bounds, an overflow of a plain operator, a division by 0.
use rasen_archive.Prelude.{ℕ, List, String, Bool, true, false, Option, none, some, ltb, leb}
use rasen_archive.Prelude.{◌≡◌, refl, ◌≢◌, ◌+◌, ◌-◌, ◌/◌, ◌==◌, u64_mod, if◌then◌else◌}

-- `std::io::Error`, as far as the program tells one from another.
pub data IoError : Type 0 where
  interrupted : IoError
  unexpected_eof : String → IoError
  io_other : String → IoError

pub data Error : Type 0 where
  io : IoError → Error
  bad_magic : Error
  bad_toc_magic : Error
  unsupported_version : ℕ → Error
  unsupported_flags : ℕ → Error
  unsupported_header_size : ℕ → Error
  empty_xor_key : Error
  crypto : String → Error
  incomplete_pack : Error
  non_empty_destination : Error
  invalid_path : Error
  invalid_chunk_size : Error
  invalid_alignment : Error
  invalid_range : Error
  buffer_size_mismatch : ℕ → ℕ → Error
  chunk_out_of_range : ℕ → ℕ → Error
  duplicate_path : List ℕ → Error
  asset_too_large : Error
  archive_too_large : Error
  too_many_entries : Error
  too_many_chunks : Error
  metadata_limit_exceeded : Error
  corrupt : String → Error
  too_large : String → Error
  lz4 : String → Error
  not_found : List ℕ → Error
  hash_collision : ℕ → Error
  checksum_mismatch : List ℕ → ℕ → Error

pub data Result {ℓ κ} (E : Type ℓ) (A : Type κ) : Type (ℓ ⊔ κ) where
  ok : A → Result E A
  err : E → Result E A
  panic : Result E A

-- The crate's `Result<T>`, and `std::io::Result<T>`.
abbrev pub Fallible {ℓ} : Type ℓ → Type ℓ
Fallible A = Result Error A

abbrev pub IoResult {ℓ} : Type ℓ → Type ℓ
IoResult A = Result IoError A

infixl 5 ◌>>=◌ ◌>>◌
abbrev pub ◌>>=◌ {ℓ κ μ} :
    {E : Type ℓ} {A : Type κ} {B : Type μ} → Result E A → (A → Result E B) → Result E B
ok a >>= f = f a
err e >>= f = err e
panic >>= f = panic

abbrev pub ◌>>◌ {ℓ κ} : {E : Type ℓ} {B : Type κ} → Result E (Unit {0}) → Result E B → Result E B
m >> k = m >>= λ _. k

-- `test.then_some(()).ok_or(error)?`
abbrev pub guard {ℓ} : {E : Type ℓ} → Bool → E → Result E (Unit {0})
guard true e = ok tt
guard false e = err e

-- `assert!`-like checks of the language.
abbrev pub require : Bool → Fallible (Unit {0})
require true = ok tt
require false = panic

abbrev pub ok_or {ℓ κ} : {E : Type ℓ} {A : Type κ} → Option A → E → Result E A
ok_or none e = err e
ok_or (some a) e = ok a

abbrev pub or_panic {ℓ κ} : {E : Type ℓ} {A : Type κ} → Option A → Result E A
or_panic none = panic
or_panic (some a) = ok a

abbrev pub map_err {ℓ κ μ} :
    {E : Type ℓ} {F : Type κ} {A : Type μ} → (E → F) → Result E A → Result F A
map_err f (ok a) = ok a
map_err f (err e) = err (f e)
map_err f panic = panic

-- `impl From<io::Error> for Error`, as `?` applies it.
abbrev pub from_io {ℓ} : {A : Type ℓ} → IoResult A → Fallible A
from_io = map_err io

-- The plain operators on a 64-bit word.
abbrev pub add_word : ℕ → ℕ → Fallible ℕ
add_word a b = if ltb (a + b) u64_mod then ok (a + b) else panic

abbrev pub sub_word : ℕ → ℕ → Fallible ℕ
sub_word a b = if leb b a then ok (a - b) else panic

abbrev pub div_word : ℕ → ℕ → Fallible ℕ
div_word a b = if b == 0 then panic else ok (a / b)

module _ {ℓ κ μ} {E : Type ℓ} {A : Type κ} {B : Type μ} where
  -- A chain that succeeds has a first step that succeeds, and goes on from its value.
  pub >>=-eq-ok :
      (m : Result E A) (k : A → Result E B) {value : B}
      → (m >>= k) ≡ ok value
      → (x : A) × (m ≡ ok x) × (k x ≡ ok value)
  >>=-eq-ok panic k e = cc
  >>=-eq-ok (ok x) k e = (x, refl, e)
  >>=-eq-ok (err error) k e = cc

  pub >>=-ne-panic :
      (m : Result E A) (f : A → Result E B)
      → m ≢ panic
      → ((a : A) → m ≡ ok a → f a ≢ panic)
      → (m >>= f) ≢ panic
  >>=-ne-panic (ok a) f hm hf = hf a refl
  >>=-ne-panic (err e) f hm hf = λ p. cc
  >>=-ne-panic panic f hm hf = absurd (hm refl)

module _ {ℓ κ μ} {E : Type ℓ} {A : Type κ} {B : Type μ} where
  -- Chains that go on alike from the value of their first step.
  pub >>=-same :
      (m : Result E A) (f g : A → Result E B)
      → ((a : A) → m ≡ ok a → f a ≡ g a)
      → (m >>= f) ≡ (m >>= g)
  >>=-same (ok a) f g h = h a refl
  >>=-same (err e) f g h = refl
  >>=-same panic f g h = refl

pub guard-eq-ok {ℓ} : {E : Type ℓ} (b : Bool) (e : E) {u : Unit {0}} → guard b e ≡ ok u → b ≡ true
guard-eq-ok true e h = refl
guard-eq-ok false e h = cc

pub ok-injective {ℓ κ} :
    {E : Type ℓ} {A : Type κ} {x y : A} → ◌≡◌ {A = Result E A} (ok x) (ok y) → x ≡ y
ok-injective h = cc

pub map_err-eq-ok {ℓ κ μ} :
    {E : Type ℓ} {F : Type κ} {A : Type μ} (f : E → F) (m : Result E A) {a : A}
    → map_err f m ≡ ok a
    → m ≡ ok a
map_err-eq-ok f (ok x) h = cc
map_err-eq-ok f (err e) h = cc
map_err-eq-ok f panic h = cc

pub from_io-eq-ok {ℓ} : {A : Type ℓ} (m : IoResult A) {a : A} → from_io m ≡ ok a → m ≡ ok a
from_io-eq-ok (ok x) h = cc
from_io-eq-ok (err e) h = cc
from_io-eq-ok panic h = cc
