-- ===== src/Tests/Index.antt =====
-- The indexes at concrete inputs, on a trie that lists its entries.
use singularity_cri.Base.{arith, ◌≡◌, refl, true, false, some, []}
use singularity_cri.Base.Text.{Text, text_beq, text_eq, text_beq_iff, codes, has_prefix}
use singularity_cri.Base.Dict
use singularity_cri.Base.Dict.{lookup}
use singularity_cri.Tests.World.{apart}
use singularity_cri.Base.Result.{ok, err, ambiguous_prefix}
use singularity_cri.Patricia.{Trie, list_trie, list_trie-IsLawful, IsLawful}
use singularity_cri.TruncIndex
use singularity_cri.TruncIndex.{TruncIndex, check_key, empty, get}
use singularity_cri.TruncIndex.Keys.{
  IsConsistent, empty-IsConsistent, add-IsConsistent, item_at-add,
}
use singularity_cri.TruncIndex.Get.{get_unique, get_ambiguous}
use singularity_cri.TruncIndex.Ids.{HasLength, found, get-eq-found, add-HasLength}

abbrev pub trie : Trie Text
trie = list_trie Text

pub lawful : IsLawful trie
lawful = list_trie-IsLawful Text

abbrev pub nothing : TruncIndex trie
nothing = record { trie = ([], tt); keys = [] }

pub nothing-IsConsistent : IsConsistent trie nothing
unfolding empty
nothing-IsConsistent = empty-IsConsistent trie lawful

pub nothing-HasLength : HasLength trie 3 nothing
unfolding lookup
nothing-HasLength k h = cc

-- The index with the container "abc".
abbrev one : TruncIndex trie
one = (TruncIndex.add trie nothing (codes "abc") (codes "abc")).1

one-IsConsistent : IsConsistent trie one
one-IsConsistent =
    add-IsConsistent trie lawful nothing nothing-IsConsistent (codes "abc") (codes "abc")

one-HasLength : HasLength trie 3 one
one-HasLength =
    add-HasLength trie lawful 3 nothing nothing-IsConsistent nothing-HasLength (codes "abc") refl
      (codes "abc")

abbrev two : TruncIndex trie
two = (TruncIndex.add trie one (codes "abd") (codes "abd")).1

get_unique_example : get trie one (codes "ab") ≡ ok (codes "abc")
unfolding check_key text_beq lookup Dict.insert TruncIndex.add has_prefix
get_unique_example =
    get_unique trie lawful one (codes "ab") refl (codes "abc") (codes "abc") refl refl (λ j h p.
      ground (
        arith,
        item_at-add trie lawful nothing nothing-IsConsistent (codes "abc") (codes "abc") j,
        text_beq_iff (codes "abc") j,
      ))

get_ambiguous_example : get trie two (codes "ab") ≡ err (ambiguous_prefix (codes "ab"))
unfolding check_key text_beq lookup Dict.insert TruncIndex.add has_prefix
get_ambiguous_example =
    get_ambiguous trie lawful two (codes "ab") refl (codes "abc") (codes "abd") refl refl refl refl
      (apart (codes "abc") (codes "abd") refl)

no_x : has_prefix (codes "abc") (codes "x") ≡ false
unfolding has_prefix
no_x = refl

abc-ne-x : (k : Text) → has_prefix k (codes "x") ≡ true → text_beq (codes "abc") k ≡ false
abc-ne-x k p = ground (arith, text_beq_iff (codes "abc") k, no_x)

get-eq-found_example : get trie one (codes "abc") ≡ found trie (some (codes "abc"))
unfolding check_key text_beq lookup Dict.insert TruncIndex.add
get-eq-found_example =
    get-eq-found trie lawful 3 one one-IsConsistent one-HasLength (codes "abc") refl refl

item_at-add_example :
    trie.item_at (TruncIndex.add trie one (codes "abd") (codes "x")).1.trie (codes "abd")
    ≡ some (codes "x")
unfolding check_key text_beq lookup Dict.insert TruncIndex.add
item_at-add_example =
    item_at-add trie lawful one one-IsConsistent (codes "abd") (codes "x") (codes "abd")

add-IsConsistent_example : IsConsistent trie two
add-IsConsistent_example =
    add-IsConsistent trie lawful one one-IsConsistent (codes "abd") (codes "abd")
