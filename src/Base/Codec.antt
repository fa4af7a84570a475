-- ===== src/Base/Codec.antt =====
-- `types.Encoder` and `types.Decoder` of go.sia.tech/core/types, which is not part of the repository:
-- what is written for a value, and how it is read from the front of an input, `none` being an error of
-- the decoder. The laws are the documented ones: what was written is read back. A fixed array of
-- bytes is the number that they spell; a time is a number of nanoseconds, kept in whole seconds.
use Prim.Native.Nat.{ℕ, zero, suc, ◌*◌, ◌%◌, ◌^◌, ◌<◌}
use mathlib.Core.Path.{◌≡◌, refl}
use mathlib.Core.Option.{Option, none, some}
use mathlib.Core.List.{List, [], ◌∷◌, ◌++◌, map, append_assoc}
use indexd.Base.Lists.{length, All}

abbrev pub Bytes : Type 0
Bytes = List ℕ

abbrev pub Reader : Type 0 → Type 0
Reader A = Bytes → Option (A × Bytes)

-- A reader takes what was written off the front of any input, as the given value.
abbrev pub Reads : {A : Type 0} → Reader A → Bytes → A → Type 0
Reads read written a = (rest : Bytes) → read (written ++ rest) ≡ some (a, rest)

pub record Codec : Type 1 where
  pub write_uint8 : ℕ → Bytes
  pub read_uint8 : Reader ℕ
  pub write_uint64 : ℕ → Bytes
  pub read_uint64 : Reader ℕ
  -- `Write` and `Read` of an array of 32 bytes, and a signature of 64
  pub write_array : ℕ → Bytes
  pub read_array : Reader ℕ
  pub write_signature : ℕ → Bytes
  pub read_signature : Reader ℕ
  pub write_bytes : Bytes → Bytes
  pub read_bytes : Reader Bytes
  pub write_time : ℕ → Bytes
  pub read_time : Reader ℕ
  -- `EncodeSlice` and `DecodeSlice`
  pub encode_slice : (A : Type 0) → (A → Bytes) → List A → Bytes
  pub decode_slice : (A : Type 0) → Reader A → Reader (List A)
  pub uint8_back : (v : ℕ) → v < 2 ^ 8 → Reads read_uint8 (write_uint8 v) v
  pub uint64_back : (v : ℕ) → v < 2 ^ 64 → Reads read_uint64 (write_uint64 v) v
  pub array_back : (v : ℕ) → v < 2 ^ 256 → Reads read_array (write_array v) v
  pub signature_back : (v : ℕ) → v < 2 ^ 512 → Reads read_signature (write_signature v) v
  pub bytes_back : (v : Bytes) → Reads read_bytes (write_bytes v) v
  pub time_back : (t : ℕ) → t % 10 ^ 9 ≡ 0 → t < 2 ^ 63 * 10 ^ 9 → Reads read_time (write_time t) t
  pub slice_back :
      (A B : Type 0) (write : A → Bytes) (read : Reader B) (f : A → B) (xs : List A)
      → length xs < 2 ^ 64
      → All (λ x. Reads read (write x) (f x)) xs
      → Reads (decode_slice B read) (encode_slice A write xs) (map f xs)

-- A codec that meets the laws: a number or a time is one entry of the output, and a length goes
-- before a list.
abbrev pub read_one : Reader ℕ
read_one [] = none
read_one (b ∷ rest) = some (b, rest)

pub read_one-back : (v : ℕ) → Reads read_one (v ∷ []) v
read_one-back v rest = refl

abbrev pub more : {A : Type 0} → A → Option (List A × Bytes) → Option (List A × Bytes)
more a none = none
more a (some (as_read, rest)) = some (a ∷ as_read, rest)

-- That many values, one after the other.
pub read_many : {A : Type 0} → Reader A → ℕ → Reader (List A)
read_many read zero input = some ([], input)
read_many read (suc n) input = elim (read input) [
  | none ↦ none
  | some (a, rest) ↦ more a (read_many read n rest)
]

pub write_all : {A : Type 0} → (A → Bytes) → List A → Bytes
write_all write [] = []
write_all write (x ∷ xs) = write x ++ write_all write xs

unfoldable pub read_slice : (A : Type 0) → Reader A → Reader (List A)
unfolding read_many
read_slice A read [] = none
read_slice A read (n ∷ input) = read_many read n input

unfoldable pub write_slice : (A : Type 0) → (A → Bytes) → List A → Bytes
unfolding write_all
write_slice A write xs = length xs ∷ write_all write xs

read_many-write_all :
    (A B : Type 0) (write : A → Bytes) (read : Reader B) (f : A → B) (xs : List A)
    → All (λ x. Reads read (write x) (f x)) xs
    → Reads (read_many read (length xs)) (write_all write xs) (map f xs)
unfolding read_many write_all
read_many-write_all A B write read f [] back rest = refl
read_many-write_all A B write read f (x ∷ xs) back rest =
    rw
      (
        append_assoc,
        back.0 (write_all write xs ++ rest),
        read_many-write_all A B write read f xs back.1 rest,
      )
      refl

pub read_slice-back :
    (A B : Type 0) (write : A → Bytes) (read : Reader B) (f : A → B) (xs : List A)
    → length xs < 2 ^ 64
    → All (λ x. Reads read (write x) (f x)) xs
    → Reads (read_slice B read) (write_slice A write xs) (map f xs)
unfolding read_slice write_slice
read_slice-back A B write read f xs short back rest =
    read_many-write_all A B write read f xs back rest

pub write_cells : Bytes → Bytes
write_cells v = length v ∷ v

pub read_cells : Reader Bytes
unfolding read_slice
read_cells = read_slice ℕ read_one

read_many-cells : (v rest : Bytes) → read_many read_one (length v) (v ++ rest) ≡ some (v, rest)
unfolding read_many
read_many-cells [] rest = refl
read_many-cells (x ∷ v) rest = rw (read_many-cells v rest) refl

pub read_cells-back : (v : Bytes) → Reads read_cells (write_cells v) v
unfolding read_cells write_cells
read_cells-back v rest = read_many-cells v rest

abbrev pub cells : Codec
cells = record {
  write_uint8 = λ v. v ∷ [];
  read_uint8 = read_one;
  write_uint64 = λ v. v ∷ [];
  read_uint64 = read_one;
  write_array = λ v. v ∷ [];
  read_array = read_one;
  write_signature = λ v. v ∷ [];
  read_signature = read_one;
  write_bytes = write_cells;
  read_bytes = read_cells;
  write_time = λ v. v ∷ [];
  read_time = read_one;
  encode_slice = write_slice;
  decode_slice = read_slice;
  uint8_back = λ v h. read_one-back v;
  uint64_back = λ v h. read_one-back v;
  array_back = λ v h. read_one-back v;
  signature_back = λ v h. read_one-back v;
  bytes_back = read_cells-back;
  time_back = λ v h k. read_one-back v;
  slice_back = read_slice-back;
}
