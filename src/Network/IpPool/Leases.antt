-- ===== src/Network/IpPool/Leases.antt =====
-- Who holds an address after a call.
use aero_nyx_private_ed.Base.HashMap
use aero_nyx_private_ed.Base.HashMap.{
  get-insert, get-remove, get-modify, find_value-some, find_value-none,
}
use aero_nyx_private_ed.Base.{
  ℕ, ◌≡◌, ◌≢◌, ◌↔◌, refl, List, [], ◌∷◌, none, some, Text, text_iff, text_eq, arith, ok, err,
  Option-cases, inl, inr, ◌⊎◌,
}
use aero_nyx_private_ed.Network.Subnet.{pool_exhausted}
use aero_nyx_private_ed.Network.IpPool.{
  IpPoolManager, allocate_ip, create_allocation, take_first, owned_by, get_ip_client, dynamic,
  get_existing_allocation,
}
use aero_nyx_private_ed.Network.IpPool.Valid.{IsValid}

-- The client had the address, or nobody had it; it has it now; the other addresses stay as they are.
abbrev pub Granted : IpPoolManager → IpPoolManager → Text → Text → Type 0
Granted s t client ip =
    ((HashMap.get s.allocated_ips ip ≡ none) ⊎ (get_ip_client s ip ≡ some client))
    × (get_ip_client t ip ≡ some client)
    × ((j : Text) → j ≢ ip → HashMap.get t.allocated_ips j ≡ HashMap.get s.allocated_ips j)

existing-owned :
    (s : IpPoolManager) (client ip : Text)
    → IsValid s
    → get_existing_allocation s client ≡ some ip
    → get_ip_client s ip ≡ some client
unfolding get_existing_allocation get_ip_client
existing-owned s client ip v e =
    elim (Option-cases (HashMap.find_value (owned_by client) s.allocated_ips)) [
      | inl missing ↦ ground (arith, missing, e)
      | inr ((j, a), found) ↦ ground (
        arith,
        found,
        e,
        find_value-some (owned_by client) s.allocated_ips j a v.distinct found,
        text_iff a.client_id client,
      )
    ]

take_first-Granted :
    (xs : List Text) (s t : IpPoolManager) (client ip : Text) (now lease : ℕ)
    → IsValid s
    → s.available_ips ≡ xs
    → take_first xs s client now lease ≡ (ok ip, t)
    → Granted s t client ip
unfolding take_first get_ip_client
take_first-Granted [] s t client ip now lease v a e = cc
take_first-Granted (x ∷ rest) s t client ip now lease v a e = (
  inl (ground (arith, e, a, v.once x, text_iff x x)),
  ground (arith, e, get-insert s.allocated_ips x ip (dynamic x client now lease), text_iff x ip),
  λ j h.
      ground
        (arith, e, h, get-insert s.allocated_ips x j (dynamic x client now lease), text_iff x j),
)

-- From a valid pool, an address that `allocate_ip` returns was the client's own or nobody's, is the
-- client's afterwards, and every other address keeps its allocation.
pub allocate_ip-Granted :
    (s t : IpPoolManager) (client ip : Text) (now : ℕ)
    → IsValid s
    → allocate_ip s client now ≡ (ok ip, t)
    → Granted s t client ip
unfolding allocate_ip create_allocation
allocate_ip-Granted s t client ip now v e = elim (Option-cases (get_existing_allocation s client)) [
  | inl absent ↦
      take_first-Granted s.available_ips s t client ip now s.default_lease_duration v refl
        (ground (arith, absent, e))
  | inr (j, found) ↦
      let owned = existing-owned s client j v found in
      let same : s ≡ t = ground (arith, found, e) in
      let here : j ≡ ip = ground (arith, found, e) in
      rw (← same, ← here) (inr owned, owned, λ k h. refl)
]

-- `allocate_ip` fails exactly when the client has no address and none is available, and then it
-- changes nothing.
pub allocate_ip-exhausted_iff :
    (s : IpPoolManager) (client : Text) (now : ℕ)
    → (allocate_ip s client now ≡ (err pool_exhausted, s))
      ↔ ((s.available_ips ≡ []) × (get_existing_allocation s client ≡ none))
unfolding allocate_ip create_allocation take_first
allocate_ip-exhausted_iff s client now = (
  λ e. elim (Option-cases (get_existing_allocation s client)) [
    | inl absent ↦ (ground arith, absent)
    | inr (j, found) ↦ ground arith
  ],
  λ h. ground arith,
)
