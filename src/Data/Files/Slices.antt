-- ===== src/Data/Files/Slices.antt =====
-- What a write does to the parts of a file that are read back.
use rhosus.Base.{
  ℕ, zero, suc, ◌+◌, ◌≤◌, ◌<◌, ◌≡◌, refl, ◌⊎◌, Bytes, [], ◌∷◌, length, arith, ap, ◌∙◌, ap₂,
}
use rhosus.Data.Files.{Files, IsDisk, slice, byte_or_zero}

pub slice_ext :
    (f g : ℕ → ℕ) (off n : ℕ)
    → ((p : ℕ) → off ≤ p → p < off + n → f p ≡ g p)
    → slice f off n ≡ slice g off n
slice_ext f g off zero h = refl
slice_ext f g off (suc n) h =
    ap₂ ◌∷◌ (h off (omega arith) (omega arith))
      (slice_ext f g (suc off) n (λ p lo hi. h p (omega arith) (omega arith)))

slice-byte_or_zero :
    (b : Bytes) (off k : ℕ) (f : ℕ → ℕ)
    → ((i : ℕ) → i < length b → f (off + i) ≡ byte_or_zero b i)
    → slice f off (length b) ≡ b
slice-byte_or_zero [] off k f h = refl
slice-byte_or_zero (x ∷ b) off k f h =
    ap₂ ◌∷◌ (ap f (omega arith) ∙ h 0 (omega arith))
      (slice-byte_or_zero b (suc off) k f (λ i hi. ap f (omega arith) ∙ h (suc i) (omega arith)))

module _ {fs : Files} (disk : IsDisk fs) where
  open disk use {size, byte, byte-write}

  -- The bytes written are the bytes read back.
  pub slice-write_self :
      (b : Bytes) (off : ℕ) (f : fs.File)
      → off + length b ≤ size f
      → slice (byte (fs.write_at b off f).2) off (length b) ≡ b
  slice-write_self b off f fits =
      slice-byte_or_zero b off 0 _ (λ i hi. ground (arith, byte-write b off (off + i) f fits))

  -- A part that the write does not touch reads as before.
  pub slice-write_apart :
      (b : Bytes) (off p n : ℕ) (f : fs.File)
      → off + length b ≤ size f
      → (p + n ≤ off) ⊎ (off + length b ≤ p)
      → slice (byte (fs.write_at b off f).2) p n ≡ slice (byte f) p n
  slice-write_apart b off p n f fits apart =
      slice_ext _ _ p n (λ q lo hi. ground (arith, byte-write b off q f fits))
