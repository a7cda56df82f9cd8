-- ===== src/Kube/Validate/Laws.antt =====
-- What the security settings become.
use singularity_cri.Base.{◌≡◌, refl, nat_eq, true, List, [], ◌∷◌, ◌++◌, arith, inl, inr, ◌↔◌, ◌⊎◌}
use singularity_cri.Base.Text.{Text, text_eq, text_beq, text_beq_iff}
use singularity_cri.Base.Result.{ok}
use singularity_cri.Base.Text.{has_prefix, trim_prefix, has_prefix-split, drop_text}
use singularity_cri.Kube.Types.{NamespaceOptions}
use singularity_cri.Kube.Validate.{
  prepare_seccomp_path, localhost_prefix, runtime_default, docker_default, unconfined,
  check_sysctls, has_any_prefix, is_pod_mode, ipc_prefixes, net_prefix,
}

-- The seccomp profiles that are let through, and what they become.
abbrev pub SeccompPath : Text → Text → Type 0
SeccompPath p path =
    (((p ≡ []) ⊎ (p ≡ unconfined)) × (path ≡ unconfined))
    ⊎ ((((p ≡ runtime_default) ⊎ (p ≡ docker_default)) × (path ≡ []))
        ⊎ (p ≡ localhost_prefix ++ path))

-- prepareSeccompPath accepts a profile as a path exactly when the profile is empty or unconfined
-- and the path is unconfined, when it is one of the two default profiles and the path is empty, or
-- when it is the path behind the localhost prefix.
pub prepare_seccomp_path_iff :
    (p path : Text) → (prepare_seccomp_path p ≡ ok path) ↔ SeccompPath p path
unfolding prepare_seccomp_path trim_prefix
prepare_seccomp_path_iff p path = (sound p path, complete)
  where
    sound : (p path : Text) → prepare_seccomp_path p ≡ ok path → SeccompPath p path
    sound [] path h = ground arith
    sound (c ∷ p) path h = ground (
      arith,
      text_beq_iff (c ∷ p) unconfined,
      text_beq_iff (c ∷ p) runtime_default,
      text_beq_iff (c ∷ p) docker_default,
      has_prefix-split (c ∷ p) localhost_prefix,
    )

    complete : SeccompPath p path → prepare_seccomp_path p ≡ ok path
    complete (inl (inl e, q)) = rw (e, q)
    complete (inl (inr e, q)) = rw (e, q) (unfold text_beq in refl)
    complete (inr (inl (inl e, q))) = rw (e, q) (unfold text_beq in refl)
    complete (inr (inl (inr e, q))) = rw (e, q) (unfold text_beq in refl)
    complete (inr (inr e)) = rw e (unfold text_beq has_prefix drop_text in refl)

-- A sysctl that needs an IPC or a network namespace has one of the pod's own.
pub record SysctlsHaveNamespace (o : NamespaceOptions) (sysctl : Text) : Type 0 where
  pub ipc : has_any_prefix sysctl ipc_prefixes ≡ true → is_pod_mode o.ipc ≡ true
  pub network : has_prefix sysctl net_prefix ≡ true → is_pod_mode o.network ≡ true

abbrev pub All {ℓ} : {A : Type 0} → (A → Type ℓ) → List A → Type ℓ
All P [] = Unit
All P (x ∷ xs) = P x × All P xs

check_sysctls_sound :
    (o : NamespaceOptions) (sysctls : List Text)
    → check_sysctls o sysctls ≡ ok tt
    → All (SysctlsHaveNamespace o) sysctls
unfolding check_sysctls
check_sysctls_sound o [] h = tt
check_sysctls_sound o (sysctl ∷ sysctls) h =
    (ground arith, check_sysctls_sound o sysctls (ground arith))

check_sysctls_complete :
    (o : NamespaceOptions) (sysctls : List Text)
    → All (SysctlsHaveNamespace o) sysctls
    → check_sysctls o sysctls ≡ ok tt
unfolding check_sysctls
check_sysctls_complete o [] h = refl
check_sysctls_complete o (sysctl ∷ sysctls) (h, hs) =
    ground (arith, h.ipc, h.network, check_sysctls_complete o sysctls hs)

-- The sysctls of a pod are accepted exactly when each that needs an IPC or a network namespace has
-- one of the pod's own.
pub check_sysctls_iff :
    (o : NamespaceOptions) (sysctls : List Text)
    → (check_sysctls o sysctls ≡ ok tt) ↔ All (SysctlsHaveNamespace o) sysctls
check_sysctls_iff o sysctls = (check_sysctls_sound o sysctls, check_sysctls_complete o sysctls)
