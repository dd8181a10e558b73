-- ===== src/Gguf/Value/Total.antt =====
-- Reading a metadata value ends: `MetadataValue::from_ptr` on any bytes at all.
use zinfer_lm.Base.{ℕ, ◌≤◌, ◌≡◌, Result, ok, err, wild}
use zinfer_lm.Gguf.DType.{DType}
use zinfer_lm.Gguf.Value.{Value}

-- A value that is measured within `n`, or a read past the end.
abbrev pub Reads {ℓ} : {A : Type ℓ} → (A → ℕ) → ℕ → Result A → Type 0
Reads measure n (ok a) = measure a ≤ n
Reads measure n (err e) = e ≡ wild
