-- ===== src/Ffi/Outcomes.antt =====
-- The outcomes of the calls of crates/rasen-archive-ffi/src/archive.rs and pack.rs.
use rasen_archive.Prelude.{
  ℕ, String, ◌≡◌, ◌≢◌, refl, ap, ◌∙◌, List, [], Bool, true, false, Option, none, some, ◌==◌, take,
  if◌then◌else◌,
}
use rasen_archive.Error.{Fallible, ok, err, panic, ◌>>=◌, guard}
use rasen_archive.Platform.{Platform}
use rasen_archive.Sink.Memory.{memory_sink}
use rasen_archive.Ffi.Status
use rasen_archive.Ffi.Status.{
  RasenStatus, FfiFailure, FfiResult, Outcome, Message, code, core_status, core, from_error,
  ffi_call,
}
use rasen_archive.Ffi.Codes.{core_status-code}
use rasen_archive.Ffi.Io.{Place, null, place, raw_slice, bytes, utf8, required_ref, required_mut}

-- A failure has a status other than `Ok`.
abbrev pub IsProper : {A : Type 0} → FfiResult A → Type 0
IsProper r = (f : FfiFailure) → r ≡ err f → f.status ≢ Status.status_ok

module _ {A B : Type 0} where
  pub bind-IsProper :
      (m : FfiResult A) (k : A → FfiResult B)
      → IsProper m
      → ((a : A) → IsProper (k a))
      → IsProper (m >>= k)
  bind-IsProper (ok a) k hm hk = hk a
  bind-IsProper (err e) k hm hk = λ f p. hm f (ap (λ (r : FfiResult B). again r) p)
    where
      again : FfiResult B → FfiResult A
      again (ok b) = panic
      again (err e') = err e'
      again panic = panic
  bind-IsProper panic k hm hk = λ f p. absurd cc

module _ {A : Type 0} where
  pub ok-IsProper : (a : A) → IsProper (ok a)
  ok-IsProper a f p = absurd cc

  pub core-IsProper : (m : Fallible A) → IsProper (core m)
  unfolding from_error code
  core-IsProper (ok a) f p = absurd cc
  core-IsProper (err e) f p =
      let same : from_error e ≡ f = cc in
      λ q. core_status-code e (ap code (ap (λ (x : FfiFailure). x.status) same ∙ q))
  core-IsProper panic f p = absurd cc

  -- A call that ends with `Ok` has succeeded, and has stored the result; a call that does not has stored
  -- nothing.
  pub ffi_call-cases :
      (r : FfiResult A) (last : Message)
      → IsProper r
      → (ffi_call r last).status ≡ Status.status_ok
      → (a : A) × (r ≡ ok a) × ((ffi_call r last).stored ≡ some a)
  unfolding ffi_call
  ffi_call-cases (ok a) last proper h = (a, refl, refl)
  ffi_call-cases (err e) last proper h = absurd (proper e refl h)
  ffi_call-cases panic last proper h = absurd cc

pub failed-IsProper :
    {A : Type 0} (s : RasenStatus) (m : Message)
    → s ≢ Status.status_ok
    → IsProper {A = A} (err (Status.failure s m))
failed-IsProper s m other f p =
    let same : Status.failure s m ≡ f = cc in
    λ q. other (ap (λ (x : FfiFailure). x.status) same ∙ q)

null_ne_ok : Status.status_null_pointer ≢ Status.status_ok
null_ne_ok p = cc

utf8_ne_ok : Status.status_invalid_utf8 ≢ Status.status_ok
utf8_ne_ok p = cc

pub value_ne_ok : Status.status_invalid_value ≢ Status.status_ok
value_ne_ok p = cc

pub required_ref-IsProper :
    {T : Type 0} (v : Option T) (name : String) → IsProper (required_ref v name)
unfolding required_ref
required_ref-IsProper none name =
    failed-IsProper Status.status_null_pointer (Status.is_null name) null_ne_ok
required_ref-IsProper (some x) name = ok-IsProper x

pub required_mut-IsProper : (v : Place) (name : String) → IsProper (required_mut v name)
unfolding required_mut
required_mut-IsProper null name =
    failed-IsProper Status.status_null_pointer (Status.is_null name) null_ne_ok
required_mut-IsProper place name = ok-IsProper tt

if-IsProper :
    {A : Type 0} (b : Bool) (x y : FfiResult A)
    → IsProper x
    → IsProper y
    → IsProper (if b then x else y)
if-IsProper true x y hx hy = hx
if-IsProper false x y hx hy = hy

pub raw_slice-IsProper :
    {T : Type 0} (m : Option (List T)) (len : ℕ) (name : String) → IsProper (raw_slice m len name)
unfolding raw_slice
raw_slice-IsProper none len name =
    if-IsProper (len == 0) (ok []) _ (ok-IsProper [])
      (failed-IsProper Status.status_null_pointer (Status.is_null name) null_ne_ok)
raw_slice-IsProper (some memory) len name =
    if-IsProper (len == 0) (ok []) (ok (take len memory)) (ok-IsProper [])
      (ok-IsProper (take len memory))

guard-IsProper : (b : Bool) (f : FfiFailure) → f.status ≢ Status.status_ok → IsProper (guard b f)
guard-IsProper true f other = ok-IsProper tt
guard-IsProper false f other = failed-IsProper f.status f.message other

pub utf8-IsProper :
    (env : Platform) (m : Option (List ℕ)) (len : ℕ) (name : String)
    → IsProper (utf8 env m len name)
unfolding utf8 bytes
utf8-IsProper env m len name =
    bind-IsProper (raw_slice m len name) _ (raw_slice-IsProper m len name) (λ b.
      bind-IsProper
        (guard (env.from_utf8 b) (Status.failure Status.status_invalid_utf8 (Status.not_utf8 name)))
        _
        (guard-IsProper (env.from_utf8 b)
          (Status.failure Status.status_invalid_utf8 (Status.not_utf8 name)) utf8_ne_ok)
        (λ u. ok-IsProper b))
