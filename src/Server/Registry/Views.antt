-- ===== src/Server/Registry/Views.antt =====
-- ImageStatus and ListImages of pkg/server/image/image.go.
use Prim.Native.Nat.{◌*◌, ◌^◌}
use singularity_cri.Base.{
  ℕ, nat_eq, ◌+◌, ◌-◌, ltb, leb, Option, none, some, List, [], ◌∷◌, ◌==◌, ◌&&◌, if◌then◌else◌,
  is_nil,
}
use singularity_cri.Base.Text.{Text, split_byte}
use singularity_cri.Base.Result.{Result, ok, err, panic, Code, status, is_index_not_found}
use singularity_cri.Patricia.{Trie}
use singularity_cri.Runtime.Host.{ImageConfig}
use singularity_cri.Image.Info
use singularity_cri.Image.Info.{Info}
use singularity_cri.Index.Images
use singularity_cri.Index.Images.{Images}

-- strconv.ParseInt(s, 10, 32): the digits, the sign, and the range of an int32. The result is the bits
-- of an int64.
parse_digits : Text → ℕ → Option ℕ
parse_digits [] n = some n
parse_digits (c ∷ s) n =
    let rest = parse_digits s (n * 10 + (c - 48)) in if leb 48 c && leb c 57 then rest else none

unsigned : Text → Option ℕ
unfolding parse_digits
unsigned [] = none
unsigned (c ∷ s) = parse_digits (c ∷ s) 0

positive : Option ℕ → Option ℕ
positive none = none
positive (some n) = if ltb n (2 ^ 31) then some n else none

negative : Option ℕ → Option ℕ
negative none = none
negative (some n) = if n == 0 then some 0 else if leb n (2 ^ 31) then some (2 ^ 64 - n) else none

unfoldable pub parse_int32 : Text → Option ℕ
unfolding unsigned positive negative
parse_int32 [] = none
parse_int32 (c ∷ s) =
    if c == b'-'
    then negative (unsigned s)
    else if c == b'+'
    then positive (unsigned s)
    else positive (unsigned (c ∷ s))

-- k8s.Image
pub record View : Type 0 where
  pub id : Text
  pub tags : List Text
  pub digests : List Text
  pub size : ℕ
  pub uid : Option ℕ
  pub username : Text

abbrev first_part : List Text → Text
first_part [] = []
first_part (part ∷ _) = part

-- The user of an image's configuration: a number, or a name.
named : Text → Option ℕ → Option ℕ × Text
named user none = (none, user)
named user (some uid) = (some uid, [])

unfoldable pub user_of : Option ImageConfig → Option ℕ × Text
unfolding parse_int32 named
user_of none = (none, [])
user_of (some config) =
    if is_nil config.user
    then (none, [])
    else let user = first_part (split_byte b':' config.user) in named user (parse_int32 user)

unfoldable pub view : Info → View
unfolding user_of
view info = record {
  id = info.id;
  tags = info.ref.tags;
  digests = info.ref.digests;
  size = info.size;
  uid = (user_of info.oci_config).0;
  username = (user_of info.oci_config).1;
}

-- ListImages names no user.
abbrev short : Info → View
short info = record {
  id = info.id;
  tags = info.ref.tags;
  digests = info.ref.digests;
  size = info.size;
  uid = none;
  username = [];
}

module _ (T : Trie ℕ) where
  status_found : Images T → Result ℕ → Result (Option View)
  status_found s (ok p) = ok (some (view (s.infos p)))
  status_found s (err e) =
      if is_index_not_found e then ok none else err (status Code.invalid_argument)
  status_found s panic = panic

  -- ImageStatus; who uses the image, which a verbose answer prints, is `used_by`.
  unfoldable pub image_status : Images T → Text → Result (Option View)
  unfolding status_found view
  image_status s image = status_found s (Images.find T s image)

  listed : (ℕ → Info) → Option Text → List ℕ → List View
  listed infos filter [] = []
  listed infos filter (p ∷ ps) =
      let rest = listed infos filter ps in
      if Info.matches filter (infos p) then short (infos p) ∷ rest else rest

  unfoldable pub list_images : Images T → Option Text → List View
  unfolding listed
  list_images s filter = listed s.infos filter (Images.iterate T s)
