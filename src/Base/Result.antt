-- ===== src/Base/Result.antt =====
-- Go's errors and panics as values.
use Prim.Native.Nat.{ℕ}
use Prim.Native.String.{String}
use mathlib.Core.Bool.{Bool, true, false}
use singularity_cri.Base.Text.{Text}

-- The package-level error values that the code compares with `==`.
pub data Sentinel : Type 0 where
  -- pkg/truncindex
  empty_prefix illegal_char item_not_found already_exists : Sentinel
  -- pkg/index, pkg/image, pkg/singularity/runtime
  index_not_found image_is_used image_not_found not_library runtime_not_found : Sentinel
  -- pkg/kube
  container_not_created : Sentinel
  -- pkg/server/device: ErrUnableToLoad and ErrNoGPUs
  unable_to_load no_gpus : Sentinel
  -- cmd/server
  gpu_not_supported : Sentinel

-- The gRPC status codes that the services answer with (google.golang.org/grpc/codes).
pub data Code : Type 0 where
  invalid_argument not_found internal failed_precondition : Code

pub data Error : Type 0 where
  sentinel : Sentinel → Error
  ambiguous_prefix : Text → Error
  -- fmt.Errorf with no error among its arguments
  errorf : String → Error
  -- fmt.Errorf("…: %v", err): the cause is only text, so that `==` no longer finds it
  wrapf : String → Error → Error
  -- status.Error and status.Errorf
  status : Code → Error
  -- an error made outside the repository
  external : ℕ → Error

-- What a Go function that returns `(T, error)` does.
pub data Result {ℓ} (A : Type ℓ) : Type ℓ where
  ok : A → Result A
  err : Error → Result A
  panic : Result A

infixl 10 ◌>>=◌
abbrev pub ◌>>=◌ {ℓ κ} : {A : Type ℓ} {B : Type κ} → Result A → (A → Result B) → Result B
ok a >>= f = f a
err e >>= f = err e
panic >>= f = panic

-- if err != nil { return fmt.Errorf("…: %v", err) }
abbrev pub wrap {ℓ} : {A : Type ℓ} → String → Result A → Result A
wrap message (ok a) = ok a
wrap message (err e) = err (wrapf message e)
wrap message panic = panic

abbrev pub is_ok {ℓ} : {A : Type ℓ} → Result A → Bool
is_ok (ok a) = true
is_ok _ = false

-- err == ErrNotFound of pkg/truncindex, pkg/index and pkg/singularity/runtime
abbrev pub is_item_not_found : Error → Bool
is_item_not_found (sentinel Sentinel.item_not_found) = true
is_item_not_found _ = false

abbrev pub is_index_not_found : Error → Bool
is_index_not_found (sentinel Sentinel.index_not_found) = true
is_index_not_found _ = false

abbrev pub is_runtime_not_found : Error → Bool
is_runtime_not_found (sentinel Sentinel.runtime_not_found) = true
is_runtime_not_found _ = false
