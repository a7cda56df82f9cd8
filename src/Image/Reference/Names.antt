-- ===== src/Image/Reference/Names.antt =====
-- The name that String gives a reference is read back as that reference.
use singularity_cri.Base.{
  ◌≡◌, ◌∙◌, ap, true, false, inl, inr, [], ◌∷◌, ◌++◌, if◌then◌else◌, arith, Bool-cases,
}
use singularity_cri.Base.Text.{
  Text, codes, text_eq, text_beq, has_prefix, trim_prefix, trim_prefix-append,
}
use singularity_cri.Base.Result.{ok}
use singularity_cri.Image.Reference.{
  normalized_image_ref, normalized_trimmed, parse_normalized, parse_ref, to_string,
  local_file_domain, library_domain, docker_domain,
}
use singularity_cri.Image.Reference.Normal.{
  trimmed, has_byte-normalized, has_prefix-normalized, normalized_trimmed-fixed,
}

-- The text that String prints for a normalized reference to a registry.
abbrev pub full_name : Text → Text
full_name n = if has_prefix n library_domain then n else docker_domain ++ (codes "/" ++ n)

to_string-parse_normalized :
    (n : Text)
    → has_prefix n local_file_domain ≡ false
    → to_string (parse_normalized n) ≡ ok (full_name n)
unfolding to_string parse_normalized text_beq
to_string-parse_normalized n h = rw h (ground arith)

library-ne-docker :
    (n : Text)
    → has_prefix n library_domain ≡ true
    → has_prefix n (docker_domain ++ codes "/") ≡ false
unfolding has_prefix
library-ne-docker [] h = cc
library-ne-docker (c ∷ n) h = ground arith

trimmed-full_name : (n : Text) → trimmed (full_name n) ≡ n
trimmed-full_name n = elim (Bool-cases (has_prefix n library_domain)) [
  | inl lib ↦ rw lib (unfold trim_prefix in rw (library-ne-docker n lib))
  | inr other ↦ rw other (trim_prefix-append (docker_domain ++ codes "/") n)
]

module _ (r : Text) (remote : has_prefix (trimmed r) local_file_domain ≡ false) where
  -- String of a parsed reference names the registry, the path and a tag or a digest.
  pub to_string-parse_ref : to_string (parse_ref r) ≡ ok (full_name (normalized_image_ref r))
  unfolding parse_ref
  to_string-parse_ref =
      to_string-parse_normalized (normalized_image_ref r) (has_prefix-normalized r remote)

  normalized-full_name :
      normalized_image_ref (full_name (normalized_image_ref r)) ≡ normalized_image_ref r
  unfolding normalized_image_ref
  normalized-full_name =
      ap normalized_trimmed (trimmed-full_name (normalized_image_ref r))
      ∙ normalized_trimmed-fixed (normalized_image_ref r) (has_prefix-normalized r remote)
          (has_byte-normalized r remote)

  pub parse_ref-full_name : parse_ref (full_name (normalized_image_ref r)) ≡ parse_ref r
  unfolding parse_ref
  parse_ref-full_name = ap parse_normalized normalized-full_name

-- For a reference that is not a local file once docker.io/ is trimmed: where String of the parsed
-- reference gives a text, parsing that text gives the same reference.
pub parse_ref-to_string :
    (r s : Text)
    → has_prefix (trimmed r) local_file_domain ≡ false
    → to_string (parse_ref r) ≡ ok s
    → parse_ref s ≡ parse_ref r
parse_ref-to_string r s remote printed =
    ap parse_ref (same (sym_printed)) ∙ parse_ref-full_name r remote
  where
    sym_printed : ok s ≡ ok (full_name (normalized_image_ref r))
    sym_printed = cc (printed, to_string-parse_ref r remote)

    same : ok s ≡ ok (full_name (normalized_image_ref r)) → s ≡ full_name (normalized_image_ref r)
    same e = cc
