-- ===== src/Ffi/Io.antt =====
-- The conversions and the callbacks of crates/rasen-archive-ffi/src/io.rs. The status that a callback
-- returns is given by its bits; a callback goes on from the caller's data and leaves them changed.
use rasen_archive.Prelude.{
  ℕ, String, List, [], ◌∷◌, Option, none, some, length, take, leb, ◌==◌, if◌then◌else◌,
}
use rasen_archive.Prelude.{checked_add}
use rasen_archive.Error.{IoResult, ok, err, ◌>>=◌, ◌>>◌, guard, ok_or, io_other}
use rasen_archive.Platform.{Platform}
use rasen_archive.Sink.{Sink}
use rasen_archive.Pack.Input.{Reader}
use rasen_archive.Ffi.Status.{
  FfiResult, failure, status_null_pointer, status_invalid_utf8, is_null, not_utf8,
}

-- A pointer for a result.
pub data Place : Type 0 where
  null : Place
  place : Place

-- `bytes`, `bytes_mut` and `raw_slice`: the caller's memory has at least `len` elements.
unfoldable pub raw_slice {ℓ} : {T : Type ℓ} → Option (List T) → ℕ → String → FfiResult (List T)
raw_slice none len name =
    if len == 0 then ok [] else err (failure status_null_pointer (is_null name))
raw_slice (some memory) len name = if len == 0 then ok [] else ok (take len memory)

unfoldable pub bytes : Option (List ℕ) → ℕ → String → FfiResult (List ℕ)
bytes = raw_slice

unfoldable pub bytes_mut : Option (List ℕ) → ℕ → String → FfiResult (List ℕ)
bytes_mut = raw_slice

unfoldable pub utf8 : Platform → Option (List ℕ) → ℕ → String → FfiResult (List ℕ)
utf8 env memory len name = do
  b ← bytes memory len name
  guard (env.from_utf8 b) (failure status_invalid_utf8 (not_utf8 name))
  ok b

unfoldable pub required_ref {ℓ} : {T : Type ℓ} → Option T → String → FfiResult T
required_ref value name = ok_or value (failure status_null_pointer (is_null name))

unfoldable pub required_mut : Place → String → FfiResult (Unit {0})
required_mut null name = err (failure status_null_pointer (is_null name))
required_mut place name = ok tt

-- `RasenBuffer`: the bytes behind its pointer, and its length.
pub record RasenBuffer : Type 0 where
  pub contents : Option (List ℕ)
  pub len : ℕ

abbrev pub default_buffer : RasenBuffer
default_buffer = record { contents = none; len = 0 }

unfoldable pub into_buffer : List ℕ → RasenBuffer
into_buffer [] = default_buffer
into_buffer (b ∷ bs) = record { contents = some (b ∷ bs); len = length (b ∷ bs) }

-- The buffer behind the pointer afterwards.
unfoldable pub rasen_buffer_free : Option RasenBuffer → Option RasenBuffer
rasen_buffer_free none = none
rasen_buffer_free (some buffer) = some default_buffer

-- The answer of the callback `read`, and the caller's data afterwards.
pub record ReadAnswer (U : Type 0) : Type 0 where
  pub status : ℕ
  pub buffer : List ℕ
  pub amount : ℕ
  pub user_data : U

pub record CallbackReader (U : Type 0) : Type 0 where
  pub user_data : U
  pub read : Option (U → ℕ → ReadAnswer U)

-- `if status != 0 { return Err(..) }` and the test of the amount, for a buffer of this length.
unfoldable pub read_answer : {U : Type 0} → ReadAnswer U → ℕ → IoResult (List ℕ)
read_answer answer n = do
  guard (answer.status == 0) (io_other "read callback failed")
  guard (leb answer.amount n) (io_other "read callback returned an oversized count")
  ok (take answer.amount answer.buffer)

unfoldable pub callback_read :
    {U : Type 0} → CallbackReader U → ℕ → IoResult (List ℕ) × CallbackReader U
callback_read r n = elim r.read [
  | none ↦ (err (io_other "read callback is null"), r)
  | some read ↦
      let answer = read r.user_data n in
      (read_answer answer n, record r { user_data = answer.user_data })
]

instance unfoldable pub callback_reader : {U : Type 0} → Reader (CallbackReader U)
callback_reader = record { read = callback_read }

-- `RasenWriter`, and `CallbackWriter` around it. `len` answers with its status and the length.
pub record CallbackWriter (U : Type 0) : Type 0 where
  pub user_data : U
  pub write : Option (U → List ℕ → ℕ × U)
  pub seek : Option (U → ℕ → ℕ × U)
  pub len : Option (U → ℕ × ℕ × U)
  pub position : ℕ

module _ {U : Type 0} where
  unfoldable pub callback_write : CallbackWriter U → List ℕ → IoResult (CallbackWriter U)
  callback_write w src = do
    write ← ok_or w.write (io_other "write callback is null")
    let (status, user_data) = write w.user_data src
    guard (status == 0) (io_other "write callback failed")
    position ← ok_or (checked_add w.position (length src)) (io_other "writer position overflow")
    ok (record w { user_data = user_data; position = position })

  -- `write_all` calls `write`, which takes all or fails, unless there is nothing to write.
  unfoldable pub callback_write_all : CallbackWriter U → List ℕ → IoResult (CallbackWriter U)
  callback_write_all w [] = ok w
  callback_write_all w (b ∷ bs) = callback_write w (b ∷ bs)

  unfoldable pub callback_seek_start : CallbackWriter U → ℕ → IoResult (ℕ × CallbackWriter U)
  callback_seek_start w absolute = do
    seek ← ok_or w.seek (io_other "seek callback is null")
    let (status, user_data) = seek w.user_data absolute
    guard (status == 0) (io_other "seek callback failed")
    ok (absolute, record w { user_data = user_data; position = absolute })

  unfoldable pub callback_seek_end : CallbackWriter U → IoResult (ℕ × CallbackWriter U)
  callback_seek_end w = do
    len ← ok_or w.len (io_other "len callback is null")
    let (status, value, user_data) = len w.user_data
    guard (status == 0) (io_other "len callback failed")
    callback_seek_start (record w { user_data = user_data }) value

instance unfoldable pub callback_writer : {U : Type 0} → Sink (CallbackWriter U)
callback_writer = record {
  write_all = callback_write_all;
  seek_end = callback_seek_end;
  seek_start = callback_seek_start;
}
