-- ===== src/Network/Stable.antt =====
-- What the network manager keeps once it is initialized.
use singularity_cri.Base.{◌≡◌, arith, false, some, [], is_nil, if◌then◌else◌}
use singularity_cri.Base.Text.{Text}
use singularity_cri.Base.Result.{ok}
use singularity_cri.Runtime.Host.{Host}
use singularity_cri.Network.{
  Cni, Wire, NetworkConfig, has_ip_ranges, set_default_network, check_ranges, check_init, unset,
  unless_set, set_pod_cidr, choose,
}

module _ {H : Host} (N : Cni H) where
  -- Once checkInit of the network manager has returned no error, a further one returns none either
  -- and changes nothing, and asks the CNI library for nothing.
  pub check_init-stable :
      (s : Wire H)
      → (check_init N s).0 ≡ ok tt
      → check_init N (check_init N s).1 ≡ (ok tt, (check_init N s).1)
  unfolding check_init set_default_network unless_set unset choose check_ranges
  check_init-stable s h = ground arith

  -- With a default network and a CIDR, SetPodCIDR returns; the CIDR stays as it was where a plugin takes
  -- ranges, and is cleared where none does.
  pub set_pod_cidr-kept :
      (s : Wire H) (config : NetworkConfig) (cidr : Text)
      → s.manager.default_network ≡ some config
      → is_nil s.manager.pod_cidr ≡ false
      → set_pod_cidr N cidr s ≡ (
        ok tt,
        record s {
          manager = record s.manager {
            pod_cidr = if has_ip_ranges config.plugins then s.manager.pod_cidr else [];
          };
        },
      )
  unfolding set_pod_cidr check_init set_default_network unless_set check_ranges
  set_pod_cidr-kept s config cidr h k = ground arith
