-- ===== src/Network/IpPool/Start.antt =====
-- A fresh pool is valid: no address is offered twice.
use aero_nyx_private_ed.Base.{
  ◌∙◌, ℕ, zero, suc, ◌-◌, ◌^◌, ◌≤◌, ◌<◌, ◌≡◌, refl, sym, ap, List, [], ◌∷◌, map, Text, some, ltb,
  take, drop, ok, arith, Bool-cases, inl, inr, text_iff, text_eq, ◌==◌,
}
use aero_nyx_private_ed.Base.HashMap
use aero_nyx_private_ed.Network.Ipv4.{dotted, dotted_injective}
use aero_nyx_private_ed.Network.Subnet.{Ipv4Network}
use aero_nyx_private_ed.Network.Subnet.Range.{
  IsNetwork, Ascending, offered, generate_ip_pool-eq-offered,
}
use aero_nyx_private_ed.Network.IpPool.{IpPoolManager, new}
use aero_nyx_private_ed.Network.IpPool.Held.{occurs}
use aero_nyx_private_ed.Network.IpPool.Valid.{IsValid}

Ascending-mono : {low high : ℕ} (xs : List ℕ) → low ≤ high → Ascending high xs → Ascending low xs
Ascending-mono [] h a = tt
Ascending-mono (x ∷ xs) h a = (omega arith, a.1, a.2)

Ascending-take : (low n : ℕ) (xs : List ℕ) → Ascending low xs → Ascending low (take n xs)
Ascending-take low zero xs a = tt
Ascending-take low (suc n) [] a = tt
Ascending-take low (suc n) (x ∷ xs) a = (a.0, a.1, Ascending-take (suc x) n xs a.2)

Ascending-drop : (low n : ℕ) (xs : List ℕ) → Ascending low xs → Ascending low (drop n xs)
Ascending-drop low zero xs a = a
Ascending-drop low (suc n) [] a = tt
Ascending-drop low (suc n) (x ∷ xs) a =
    Ascending-mono {low = low} {high = suc x} (drop n xs) (omega arith)
      (Ascending-drop (suc x) n xs a.2)

occurs_below :
    (y low : ℕ) (xs : List ℕ)
    → y < low
    → y < 2 ^ 32
    → Ascending low xs
    → occurs (dotted y) (map dotted xs) ≡ 0
occurs_below y low [] h k a = refl
occurs_below y low (x ∷ xs) h k a = ground (
  arith,
  occurs_below y (suc x) xs (omega arith) k a.2,
  text_iff (dotted x) (dotted y),
  dotted_injective x y a.1 k,
)

occurs_once : (j : Text) (low : ℕ) (xs : List ℕ) → Ascending low xs → occurs j (map dotted xs) ≤ 1
occurs_once j low [] a = omega arith
occurs_once j low (x ∷ xs) a = elim (Bool-cases (dotted x == j)) [
  | inl here ↦
      let same : dotted x ≡ j = (text_iff (dotted x) j).0 here in
      let rest : occurs j (map dotted xs) ≡ 0 =
        ap (λ t. occurs t (map dotted xs)) (sym same)
        ∙ occurs_below x (suc x) xs (omega arith) a.1 a.2 in
      ground (arith, rest)
  | inr there ↦ ground (arith, occurs_once j (suc x) xs a.2)
]

occurs-take-le : (j : Text) (n : ℕ) (xs : List Text) → occurs j (take n xs) ≤ occurs j xs
occurs-take-le j zero xs = omega arith
occurs-take-le j (suc n) [] = omega arith
occurs-take-le j (suc n) (x ∷ xs) = omega (arith, occurs-take-le j n xs)

occurs-offered : (n : Ipv4Network) (j : Text) → IsNetwork n → occurs j (offered n) ≤ 1
occurs-offered n j w =
    let picked = take (n.size - 4) (drop 2 n.addresses) in
    omega (
      arith,
      occurs-take-le j 1000 (map dotted picked),
      occurs_once j 0 picked (
          Ascending-take 0 (n.size - 4) (drop 2 n.addresses)
            (Ascending-drop 0 2 n.addresses w.ascending)),
    )

-- What `new` returns, when it returns a pool.
new-eq :
    (n : Ipv4Network) (lease : ℕ) (s : IpPoolManager)
    → IsNetwork n
    → new (some n) lease ≡ ok s
    → s ≡ record {
      available_ips = offered n;
      allocated_ips = [];
      subnet = n;
      default_lease_duration = lease;
    }
unfolding new
new-eq n lease s w e = elim (Bool-cases (ltb 4 n.size)) [
  | inl large ↦ ground (arith, large, generate_ip_pool-eq-offered n w, e)
  | inr small ↦ ground (arith, small, generate_ip_pool-eq-offered n w, e)
]

pub new-IsValid :
    (n : Ipv4Network) (lease : ℕ) (s : IpPoolManager)
    → IsNetwork n
    → new (some n) lease ≡ ok s
    → IsValid s
unfolding HashMap.get
new-IsValid n lease s w e = rw (new-eq n lease s w e) (record {
  distinct = tt;
  keyed = λ ip a h. cc;
  once = λ ip. omega (arith, occurs-offered n ip w);
})
