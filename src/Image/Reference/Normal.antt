-- ===== src/Image/Reference/Normal.antt =====
-- NormalizedImageRef gives every reference but a local file a tag, and normalizes once and for all.
use singularity_cri.Base.{◌≡◌, refl, true, false, none, some, [], ◌∷◌, ◌++◌, arith, ℕ}
use singularity_cri.Base.Text.{
  Text, codes, text_eq, has_prefix, trim_prefix, before_last, has_byte, has_byte-append,
}
use singularity_cri.Image.Reference.{
  normalized_image_ref, normalized_trimmed, local_file_domain, docker_domain,
}

abbrev pub trimmed : Text → Text
trimmed r = trim_prefix r (docker_domain ++ codes "/")

-- A cut is found exactly where the byte stands.
before_last-has_byte :
    (c : ℕ) (s : Text) → (elim (before_last c s) [ none ↦ false | some _ ↦ true ]) ≡ has_byte c s
unfolding before_last has_byte
before_last-has_byte c [] = refl
before_last-has_byte c (a ∷ s) = ground (arith, before_last-has_byte c s)

has_byte-latest : (s : Text) → has_byte b':' (s ++ codes ":latest") ≡ true
unfolding has_byte
has_byte-latest s = rw has_byte-append (ground arith)

-- A prefix without the byte does not reach past it.
has_prefix-append_byte :
    (c : ℕ) (s t p : Text)
    → has_byte c p ≡ false
    → has_prefix s p ≡ false
    → has_prefix (s ++ c ∷ t) p ≡ false
unfolding has_prefix has_byte
has_prefix-append_byte c s t [] no_c h = cc
has_prefix-append_byte c [] t (b ∷ p) no_c h = ground arith
has_prefix-append_byte c (a ∷ s) t (b ∷ p) no_c h = ground (arith, has_prefix-append_byte c s t p)

pub has_prefix-normalized :
    (r : Text)
    → has_prefix (trimmed r) local_file_domain ≡ false
    → has_prefix (normalized_image_ref r) local_file_domain ≡ false
unfolding normalized_image_ref
has_prefix-normalized r h = rw h (
    ground (
      arith,
      has_prefix-append_byte b':' (trimmed r) (codes "latest") local_file_domain
          (unfold has_byte in refl) h,
    ))

pub has_byte-normalized :
    (r : Text)
    → has_prefix (trimmed r) local_file_domain ≡ false
    → has_byte b':' (normalized_image_ref r) ≡ true
unfolding normalized_image_ref
has_byte-normalized r h =
    rw h (ground (arith, before_last-has_byte b':' (trimmed r), has_byte-latest (trimmed r)))

-- What has a colon and is no local file is normalized.
pub normalized_trimmed-fixed :
    (n : Text)
    → has_prefix n local_file_domain ≡ false
    → has_byte b':' n ≡ true
    → normalized_trimmed n ≡ n
unfolding normalized_trimmed
normalized_trimmed-fixed n h c = rw h (ground (arith, before_last-has_byte b':' n))
