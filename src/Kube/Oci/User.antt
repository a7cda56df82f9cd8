-- ===== src/Kube/Oci/User.antt =====
-- configureUser and getContainerUser of container_oci.go.
use Prim.Native.Nat.{◌%◌, ◌^◌}
use singularity_cri.Base.{ℕ, Option, none, some, List, [], ◌∷◌, ◌++◌, if◌then◌else◌, is_nil}
use singularity_cri.Base.Text.{Text, codes}
use singularity_cri.Base.Exec.{Exec, ◌>>=◌, ◌>>◌, modify, wrapping}
use singularity_cri.Runtime.Host.{Host, ImageConfig}
use singularity_cri.Kube.Types.{Security}
use singularity_cri.Kube.Oci.{Translator, Draft, ExecUser, Call, on_host, does}
use singularity_cri.Kube.Oci.Numbers.{decimal}

-- strings.Join(parts, ":")
unfoldable pub with_colons : List Text → Text
with_colons [] = []
with_colons (p ∷ []) = p
with_colons (p ∷ q ∷ ps) = p ++ (codes ":" ++ with_colons (q ∷ ps))

abbrev given : Option ℕ → List Text
given none = []
given (some n) = decimal n ∷ []

unfoldable pub user_parts : Security → List Text
user_parts s =
    (if is_nil s.run_as_username then [] else s.run_as_username ∷ [])
    ++ (given s.run_as_user ++ given s.run_as_group)

-- The user of the configuration, or that of the image.
abbrev user_or_image : Text → Option ImageConfig → Text
user_or_image spec none = spec
user_or_image spec (some image) = if is_nil spec then image.user else spec

unfoldable pub user_spec : Security → Option ImageConfig → Text
unfolding with_colons user_parts
user_spec s image = user_or_image (with_colons (user_parts s)) image

-- uint32(n)
abbrev pub u32 : ℕ → ℕ
u32 n = n % 2 ^ 32

module _ {H : Host} (T : Translator H) where
  get_container_user : Text → Text → Exec (Draft T) ExecUser
  get_container_user rootfs spec = wrapping "invalid user" (
      on_host T (
        T.get_exec_user spec (H.join (rootfs ∷ codes "/etc/passwd" ∷ []))
          (H.join (rootfs ∷ codes "/etc/group" ∷ []))))

  unfoldable pub add_gids : List ℕ → Draft T → Draft T
  add_gids [] s = s
  add_gids (gid ∷ gids) s = add_gids gids (does T (Call.add_additional_gid (u32 gid)) s)

  unfoldable pub configure_user : Text → Security → Option ImageConfig → Exec (Draft T) (Unit {0})
  unfolding get_container_user user_spec add_gids
  configure_user rootfs security image = do
    user ← get_container_user rootfs (user_spec security image)
    modify (does T (Call.set_uid (u32 user.uid)))
    modify (does T (Call.set_gid (u32 user.gid)))
    modify (add_gids user.sgids)
    modify (add_gids security.supplemental_groups)
