-- ===== src/Base/Arrays.antt =====
-- A C array as a function of its index. A write changes one place.
use Prim.Native.Nat.{ℕ}
use atmkoala.Base.Tests.{◌==◌, if◌then◌else◌}

abbrev pub update {ℓ} : {A : Type ℓ} → (ℕ → A) → ℕ → A → ℕ → A
update f i v j = if j == i then v else f j
