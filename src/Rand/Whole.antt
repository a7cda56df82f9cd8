-- ===== src/Rand/Whole.antt =====
-- An ID is as long as it was asked for, and passes the checks of the prefix index.
use Prim.Native.Nat.{◌*◌, ◌/◌, ◌%◌}
use singularity_cri.Base.{
  ◌≡◌, refl, arith, ℕ, zero, suc, ◌≤◌, false, List, [], ◌∷◌, ◌==◌, nat_eq, length,
}
use singularity_cri.Base.Text.{Text, has_byte}
use singularity_cri.Base.Result.{ok}
use singularity_cri.TruncIndex.{check_key}
use singularity_cri.Kube.Members.{take}
use singularity_cri.Kube.Oci.Numbers.{digit}
use singularity_cri.Rand.{hex, wanted, generate_id}

length-hex : (bytes : List ℕ) → length (hex bytes) ≡ 2 * length bytes
unfolding hex
length-hex [] = refl
length-hex (b ∷ bs) = omega (arith, length-hex bs)

length-take : (n : ℕ) (s : Text) → n ≤ length s → length (take n s) ≡ n
length-take zero s h = refl
length-take (suc n) [] h = omega arith
length-take (suc n) (c ∷ s) h = omega (arith, length-take n s (omega arith))

digit-visible : (d : ℕ) → (digit d == b' ') ≡ false
digit-visible d = ground arith

hex-visible : (bytes : List ℕ) → has_byte b' ' (hex bytes) ≡ false
unfolding hex has_byte
hex-visible [] = refl
hex-visible (b ∷ bs) =
    ground (arith, digit-visible (b / 16 % 16), digit-visible (b % 16), hex-visible bs)

take-visible : (n : ℕ) (s : Text) → has_byte b' ' s ≡ false → has_byte b' ' (take n s) ≡ false
unfolding has_byte
take-visible zero s h = refl
take-visible (suc n) [] h = refl
take-visible (suc n) (c ∷ s) h = ground (arith, take-visible n s)

-- With as many random bytes as it asks for, GenerateID of a positive length does not read behind
-- the end of the hexadecimal text, and its ID has that length and passes the checks of the prefix
-- index.
pub generate_id-whole :
    (n : ℕ) (bytes : List ℕ)
    → length bytes ≡ wanted (suc n)
    → (generate_id (suc n) bytes ≡ ok (take (suc n) (hex bytes)))
      × ((length (take (suc n) (hex bytes)) ≡ suc n)
          × (check_key (take (suc n) (hex bytes)) ≡ ok tt))
unfolding generate_id check_key
generate_id-whole n bytes h =
    let long : suc n ≤ length (hex bytes) = omega (arith, length-hex bytes) in
    ground (
      arith,
      long,
      length-take (suc n) (hex bytes) long,
      take-visible (suc n) (hex bytes) (hex-visible bytes),
    )
