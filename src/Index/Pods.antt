-- ===== src/Index/Pods.antt =====
-- pkg/index/pod.go: an index of pods. What is stored is the pod's address, which is its ID.
pub mod Laws
use singularity_cri.Base.{
  ◌≡◌, refl, ◌∙◌, ap, sym, ◌≢◌, ℕ, nat_eq, Bool, true, false, Option, none, some, List, [], ◌∷◌,
  ◌++◌, ◌==◌, if◌then◌else◌, arith, Bool-cases, inl, inr, is_some, ◌↔◌, ◌||◌, ◌&&◌, not, ◌+◌, ◌-◌,
  ◌≤◌, ◌<◌, zero, suc, ◌⊎◌, length, is_nil, length-append, map,
}
use singularity_cri.Base.Text.{Text, text_eq, text_beq_iff, codes}
use singularity_cri.Base.Result.{
  Result, ok, err, panic, Error, sentinel, Sentinel, wrapf, errorf, is_runtime_not_found,
}
use singularity_cri.Base.Exec.{
  Exec, ◌>>=◌, ◌>>◌, pure, modify, wrapping, attempt, logged, raise, crash,
}
use singularity_cri.Patricia.{Trie, IsLawful}
use singularity_cri.TruncIndex
use singularity_cri.TruncIndex.{TruncIndex, check_key}
use singularity_cri.Base.Result.{is_item_not_found, is_index_not_found, wrap}

module _ (T : Trie Text) where
  found : Result Text → Result Text
  found (ok pod) = ok pod
  found (err e) =
      if is_item_not_found e
      then err (sentinel Sentinel.index_not_found)
      else err (wrapf "could not search index" e)
  found panic = panic

  unfoldable pub find : TruncIndex T → Text → Result Text
  unfolding found
  find i id = found (TruncIndex.get T i id)

  removed : Result (Unit {0}) → Result (Unit {0})
  removed (ok _) = ok tt
  removed (err e) = if is_item_not_found e then ok tt else err (wrapf "could not remove pod" e)
  removed panic = panic

  unfoldable pub remove : Text → Exec (TruncIndex T) (Unit {0})
  unfolding removed
  remove id i = let (r, i') = TruncIndex.delete T i id in (removed r, i')

  unfoldable pub add : Text → Exec (TruncIndex T) (Unit {0})
  add id i = let (r, i') = TruncIndex.add T i id id in (wrap "could not add pod" r, i')

  -- The pods that Iterate hands to its handler.
  unfoldable pub iterate : TruncIndex T → List Text
  iterate i = map (λ (entry : Text × Text). entry.1) (TruncIndex.iterate T i)
