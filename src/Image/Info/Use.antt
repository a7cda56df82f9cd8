-- ===== src/Image/Info/Use.antt =====
-- An image that a container has borrowed is not removed before it is returned.
use singularity_cri.Base.{
  ◌≡◌, ◌∙◌, ◌≤◌, true, false, List, [], ◌∷◌, ◌==◌, ◌||◌, if◌then◌else◌, arith,
}
use singularity_cri.Base.Text.{Text, text_eq}
use singularity_cri.Base.Result.{ok, err, sentinel, Sentinel}
use singularity_cri.Slice.{contains, count, IsOrder, remove_from_string}
use singularity_cri.Slice.Laws.{
  one_if, contains-count, count-merge_string, count-remove_from_string,
}
use singularity_cri.Runtime.Host.{Host}
use singularity_cri.Image.Reference.{local_file_domain}
use singularity_cri.Image.Info.{Info, borrow, give_back, remove}

-- Nobody is listed twice.
abbrev pub IsSetOfUsers : Info → Type 0
IsSetOfUsers i = (who : Text) → count who i.used_by ≤ 1

module _ (order : List Text → List Text) (o : IsOrder order) (i : Info) (who : Text) where
  -- After Borrow the users of an image are those before it and the borrower, each listed once, in
  -- whatever order Go ranges over a map, where it gives each key once.
  pub borrow-used_by :
      (x : Text) → count x (borrow order who i).used_by ≡ one_if (contains i.used_by x || who == x)
  unfolding borrow
  borrow-used_by x = count-merge_string order i.used_by (who ∷ []) x o ∙ ground arith

  pub borrow-IsSetOfUsers : IsSetOfUsers (borrow order who i)
  borrow-IsSetOfUsers x = ground (arith, borrow-used_by x)

pub give_back-IsSetOfUsers :
    (i : Info) (who : Text) → IsSetOfUsers i → IsSetOfUsers (give_back who i)
unfolding give_back
give_back-IsSetOfUsers i who u x = ground (arith, count-remove_from_string i.used_by who x, u x)

-- Return takes the user off the list of an image whose users are listed once each, and nobody
-- else.
pub give_back-used_by :
    (i : Info) (who x : Text)
    → IsSetOfUsers i
    → contains (give_back who i).used_by x ≡ (if who == x then false else contains i.used_by x)
unfolding give_back
give_back-used_by i who x u = ground (
  arith,
  contains-count x (remove_from_string i.used_by who),
  contains-count x i.used_by,
  count-remove_from_string i.used_by who x,
  u x,
)

-- An image with a user is never removed from the disk: Remove reports that it is used, or that there
-- is nothing to remove for a local file, and touches nothing.
pub remove_used :
    (H : Host) (i : Info) (who : Text) (w : H.World)
    → contains i.used_by who ≡ true
    → remove H i w ≡ (
      (if i.ref.uri == local_file_domain then ok tt else err (sentinel Sentinel.image_is_used)),
      w,
    )
unfolding remove
remove_used H i who w h = ground arith
