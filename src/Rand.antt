-- ===== src/Rand.antt =====
-- pkg/rand/rand.go: the random IDs of pods and containers. The bytes that crypto/rand reads are an
-- argument.
pub mod Whole
use Prim.Native.Nat.{◌/◌, ◌%◌}
use singularity_cri.Base.{ℕ, ◌+◌, ◌-◌, List, [], ◌∷◌, if◌then◌else◌, ltb, length}
use singularity_cri.Base.Text.{Text}
use singularity_cri.Base.Result.{Result, ok, panic}
use singularity_cri.Kube.Members.{take}
use singularity_cri.Kube.Oci.Numbers.{digit}

-- hex.EncodeToString
unfoldable pub hex : List ℕ → Text
hex [] = []
hex (b ∷ bs) = digit (b / 16 % 16) ∷ digit (b % 16) ∷ hex bs

-- The bytes that GenerateID asks for.
abbrev pub wanted : ℕ → ℕ
wanted len = (len - 1) / 2 + 1

-- GenerateID on the bytes read; a slice behind the end panics.
unfoldable pub generate_id : ℕ → List ℕ → Result Text
unfolding hex
generate_id len bytes = if ltb (length (hex bytes)) len then panic else ok (take len (hex bytes))
