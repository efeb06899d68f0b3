-- ===== src/Data/Files.antt =====
-- The calls of `os.File` that the store makes, and what it relies on: a disk that does not fail on
-- the part of the file that exists.
pub mod Slices
use rhosus.Base.{
  ℕ, zero, suc, ◌+◌, ◌-◌, ◌≤◌, ◌<◌, ◌≡◌, Bool, ◌&&◌, Bytes, Option, none, some, [], ◌∷◌, length,
  get_elem?, ltb, leb, if◌then◌else◌,
}

pub data IoErr : Type 0 where
  eof : IoErr
  other : ℕ → IoErr

-- `write_at b off f` is f.WriteAt(b, off), `read_at n off f` is f.ReadAt into a buffer of n bytes,
-- `read n f` is f.Read, which moves the file's position. An error of `none` is nil.
pub record Files : Type 1 where
  pub File : Type 0
  pub write_at : Bytes → ℕ → File → ℕ × Option IoErr × File
  pub read_at : ℕ → ℕ → File → Bytes × Option IoErr
  pub read : ℕ → File → ℕ × Option IoErr × File
  pub sync : File → Option IoErr × File
  pub close : File → Option IoErr

abbrev pub byte_or_zero : Bytes → ℕ → ℕ
byte_or_zero [] i = 0
byte_or_zero (x ∷ xs) zero = x
byte_or_zero (x ∷ xs) (suc i) = byte_or_zero xs i

-- The `n` bytes from `off` on of a file with the bytes `byte`.
abbrev pub slice : (ℕ → ℕ) → ℕ → ℕ → Bytes
slice byte off zero = []
slice byte off (suc n) = byte off ∷ slice byte (suc off) n

pub record IsDisk (fs : Files) : Type 0 where
  pub size : fs.File → ℕ
  pub byte : fs.File → ℕ → ℕ
  pub write_ok :
      (b : Bytes) (off : ℕ) (f : fs.File)
      → off + length b ≤ size f
      → ((fs.write_at b off f).0 ≡ length b) × ((fs.write_at b off f).1 ≡ none)
  pub size-write :
      (b : Bytes) (off : ℕ) (f : fs.File)
      → off + length b ≤ size f
      → size (fs.write_at b off f).2 ≡ size f
  pub byte-write :
      (b : Bytes) (off p : ℕ) (f : fs.File)
      → off + length b ≤ size f
      → byte (fs.write_at b off f).2 p
        ≡ (if leb off p && ltb p (off + length b) then byte_or_zero b (p - off) else byte f p)
  pub read_ok :
      (n off : ℕ) (f : fs.File)
      → off + n ≤ size f
      → fs.read_at n off f ≡ (slice (byte f) off n, none)
  pub read_eof : (n off : ℕ) (f : fs.File) → size f < off + n → (fs.read_at n off f).1 ≡ some eof
  pub sync_ok : (f : fs.File) → fs.sync f ≡ (none, f)
