-- ===== src/Network/Subnet/Range.antt =====
-- Which addresses of the subnet `generate_ip_pool` offers.
use aero_nyx_private_ed.Base.{
  ℕ, zero, suc, ◌+◌, ◌-◌, ◌^◌, ◌≤◌, ◌<◌, ◌≡◌, refl, sym, ap, ◌∙◌, ◌||◌, List, [], ◌∷◌, ◌++◌, map,
  Text, ltb, leb, if◌then◌else◌, length, take, drop, ok, err, arith, Bool-cases, inl, inr,
  length-append,
}
use mathlib.Core.List.{append_assoc, append-nil}
use aero_nyx_private_ed.Network.Ipv4.{dotted}
use aero_nyx_private_ed.Network.Subnet.{
  Ipv4Network, invalid_subnet, generate_ip_pool, pool_loop, non_empty,
}

-- The addresses that the loop's first test lets through.
usable : ℕ → List ℕ → ℕ → List ℕ
usable size [] count = []
usable size (ip ∷ ips) count =
    let rest = usable size ips (count + 1) in
    if leb (count + 1) 2 || leb (size - 1) (count + 1) then rest else ip ∷ rest

take-nil {ℓ} : {A : Type ℓ} (n : ℕ) → take {A = A} n [] ≡ []
take-nil zero = refl
take-nil (suc n) = refl

usable_after :
    (size : ℕ) (ips : List ℕ) (count : ℕ)
    → 2 ≤ count
    → usable size ips count ≡ take (size - 2 - count) ips
unfolding usable
usable_after size [] count h = sym (take-nil (size - 2 - count))
usable_after size (ip ∷ ips) count h = elim (Bool-cases (leb (size - 1) (count + 1))) [
  | inl past ↦
      let none_left : size - 2 - count ≡ 0 = ground arith in
      let none_after : size - 2 - (count + 1) ≡ 0 = omega arith in
      rw none_left
        (ground (arith, usable_after size ips (count + 1), ap (λ n. take n ips) none_after))
  | inr before ↦
      let more : size - 2 - count ≡ suc (size - 2 - (count + 1)) = ground arith in
      rw more (ground (arith, usable_after size ips (count + 1)))
]

-- One round that adds an address, given what the rest of the loop does.
added_round :
    (x : Text) (rest pool looped : List Text)
    → length pool < 1000
    → (length (pool ++ x ∷ []) < 1000
        → looped ≡ (pool ++ x ∷ []) ++ take (1000 - length (pool ++ x ∷ [])) rest)
    → (if leb 1000 (length (pool ++ x ∷ [])) then pool ++ x ∷ [] else looped)
      ≡ pool ++ take (1000 - length pool) (x ∷ rest)
added_round x rest pool looped h ih =
    let one_more : length (pool ++ x ∷ []) ≡ length pool + 1 =
      omega (arith, length-append pool (x ∷ [])) in
    let room : 1000 - length pool ≡ suc (999 - length pool) = omega arith in
    rw room (elim (Bool-cases (leb 1000 (length (pool ++ x ∷ [])))) [
      | inl full ↦ let done : 999 - length pool ≡ 0 = ground arith in rw (full, done)
      | inr below ↦
          let left : 1000 - length (pool ++ x ∷ []) ≡ 999 - length pool = omega arith in
          rw below (
            ih (ground arith)
            ∙ rw left (append_assoc pool (x ∷ []) (take (999 - length pool) rest)))
    ])

pool_loop-usable :
    (size : ℕ) (ips : List ℕ) (count : ℕ) (pool : List Text)
    → length pool < 1000
    → pool_loop size ips count pool
      ≡ pool ++ take (1000 - length pool) (map dotted (usable size ips count))
unfolding pool_loop usable
pool_loop-usable size [] count pool h = rw (take-nil (1000 - length pool)) (sym (append-nil pool))
pool_loop-usable size (ip ∷ ips) count pool h =
    elim (Bool-cases (leb (count + 1) 2 || leb (size - 1) (count + 1))) [
      | inl skipped ↦ rw skipped (pool_loop-usable size ips (count + 1) pool h)
      | inr added ↦ rw added (
          added_round (dotted ip) (map dotted (usable size ips (count + 1))) pool
            (pool_loop size ips (count + 1) (pool ++ dotted ip ∷ [])) h
            (pool_loop-usable size ips (count + 1) (pool ++ dotted ip ∷ [])))
    ]

usable_all : (size : ℕ) (ips : List ℕ) → usable size ips 0 ≡ take (size - 4) (drop 2 ips)
unfolding usable
usable_all size [] = sym (take-nil (size - 4))
usable_all size (a ∷ []) = sym (take-nil (size - 4))
usable_all size (a ∷ b ∷ ips) =
    usable_after size ips 2 (omega arith) ∙ ap (λ n. take n ips) (omega arith)

-- What the crate documents of a network: `iter()` runs upwards through `size()` addresses of 32 bits.
abbrev pub Ascending : ℕ → List ℕ → Type 0
Ascending low [] = Unit
Ascending low (x ∷ xs) = (low ≤ x) × (x < 2 ^ 32) × Ascending (suc x) xs

pub record IsNetwork (n : Ipv4Network) : Type 0 where
  pub counted : n.size ≡ length n.addresses
  pub ascending : Ascending 0 n.addresses

-- All but two addresses at each end, and a thousand at most.
abbrev pub offered : Ipv4Network → List Text
offered n = take 1000 (map dotted (take (n.size - 4) (drop 2 n.addresses)))

take_pos {ℓ} : {A : Type ℓ} (n : ℕ) (xs : List A) → 0 < n → 0 < length xs → 0 < length (take n xs)
take_pos zero xs h k = absurd (omega arith)
take_pos (suc n) [] h k = absurd (omega arith)
take_pos (suc n) (x ∷ xs) h k = omega arith

length-map {ℓ κ} :
    {A : Type ℓ} {B : Type κ} (f : A → B) (xs : List A) → length (map f xs) ≡ length xs
length-map f [] = refl
length-map f (x ∷ xs) = ap suc (length-map f xs)

length-drop_two : (xs : List ℕ) → length (drop 2 xs) ≡ length xs - 2
length-drop_two [] = omega arith
length-drop_two (a ∷ []) = omega arith
length-drop_two (a ∷ b ∷ xs) = omega arith

non_empty_pos : (pool : List Text) → 0 < length pool → non_empty pool ≡ ok pool
unfolding non_empty
non_empty_pos [] h = absurd (omega arith)
non_empty_pos (x ∷ pool) h = refl

non_empty_nil : non_empty [] ≡ err invalid_subnet
unfolding non_empty
non_empty_nil = refl

offered-pos : (n : Ipv4Network) → n.size ≡ length n.addresses → 4 < n.size → 0 < length (offered n)
offered-pos n e h =
    let picked = take (n.size - 4) (drop 2 n.addresses) in
    take_pos 1000 (map dotted picked) (omega arith) (
      rw (length-map dotted picked) (
        take_pos (n.size - 4) (drop 2 n.addresses) (omega arith)
          (omega (arith, length-drop_two n.addresses))))

generated : (n : Ipv4Network) → generate_ip_pool n ≡ non_empty (offered n)
unfolding generate_ip_pool
generated n = ap non_empty (
    pool_loop-usable n.size n.addresses 0 [] (omega arith)
    ∙ ap (λ xs. take 1000 (map dotted xs)) (usable_all n.size n.addresses))

-- A subnet of more than four addresses gives all but its first two and last two, a thousand at
-- most and in order; a smaller one is refused.
pub generate_ip_pool-eq-offered :
    (n : Ipv4Network)
    → IsNetwork n
    → generate_ip_pool n ≡ (if ltb 4 n.size then ok (offered n) else err invalid_subnet)
generate_ip_pool-eq-offered n w = rw (generated n) (elim (Bool-cases (ltb 4 n.size)) [
  | inl large ↦ rw large (non_empty_pos (offered n) (offered-pos n w.counted (ground arith)))
  | inr small ↦ let nothing : n.size - 4 ≡ 0 = ground arith in rw (small, nothing) non_empty_nil
])
