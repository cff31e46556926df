-- ===== src/MetricStorage/Targets/Address.antt =====
-- The address of a node from its AnsibleHost or its HostName.
use ceilometer_operator.Prelude.{
  String, ◌≡◌, ◌⊎◌, inl, inr, refl, Bool, true, false, ◌||◌, Bool-cases,
}
use ceilometer_operator.Cluster.{Cluster}
use ceilometer_operator.MetricStorage.Calls.{Node, Calls}
use ceilometer_operator.MetricStorage.Domain.{is_valid_domain}
use ceilometer_operator.MetricStorage.Targets.{get_address_from_ansible_host}

module _ (k : Cluster) (c : Calls k) where
  -- a text that can be dialled
  abbrev pub usable : String → Bool
  usable host = c.is_ip host || is_valid_domain host

  -- The address of a node is its AnsibleHost if that is an IP address or a valid domain, or else its
  -- HostName if that is a valid domain, and it is blank only if neither can be used; an IP address in
  -- HostName is not used.
  pub get_address_from_ansible_host_lem :
      (n : Node)
      → let address = get_address_from_ansible_host k c n in
        ((address ≡ n.ansible_host) × (usable n.ansible_host ≡ true))
        ⊎ ((address ≡ n.host_name)
            × (usable n.ansible_host ≡ false)
            × (is_valid_domain n.host_name ≡ true))
        ⊎ ((address ≡ "") × (usable n.ansible_host ≡ false) × (is_valid_domain n.host_name ≡ false))
  unfolding get_address_from_ansible_host
  get_address_from_ansible_host_lem n = elim (Bool-cases (c.is_ip n.ansible_host)) [
    | inl a ↦ inl (rw a refl, rw a refl)
    | inr a ↦ elim (Bool-cases (is_valid_domain n.ansible_host)) [
      | inl b ↦ inl (rw (a, b) refl, rw (a, b) refl)
      | inr b ↦ elim (Bool-cases (is_valid_domain n.host_name)) [
        | inl d ↦ inr (inl (rw (a, b, d) refl, rw (a, b) refl, d))
        | inr d ↦ inr (inr (rw (a, b, d) refl, rw (a, b) refl, d))
      ]
    ]
  ]
