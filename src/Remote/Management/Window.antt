-- ===== src/Remote/Management/Window.antt =====
-- How many requests of one type the limiter lets pass.
use aero_nyx_private_ed.Base.HashMap
use aero_nyx_private_ed.Base.HashMap.{HashMap, get-insert}
use aero_nyx_private_ed.Base.{
  ℕ, ◌+◌, ◌-◌, ◌≤◌, ◌<◌, ◌≡◌, inl, inr, refl, sym, ap, true, false, ◌&&◌, List, [], ◌∷◌, ◌++◌, Text,
  text_eq, text_iff, text_self, list_beq, leb, ltb, if◌then◌else◌, length, arith, Bool-cases,
  length-append,
}
use mathlib.Core.Path.{subst}
use native.Mathlib.Decide.{dec_lt}
use aero_nyx_private_ed.Remote.Management.{
  RateLimiter, new_limiter, minute, retain_after, entries_or_new, check_and_update,
}

-- The times behind `t`, up to a minute behind it.
pub count_in : ℕ → List ℕ → ℕ
count_in t [] = 0
count_in t (x ∷ xs) = (if ltb t x && leb x (t + minute) then 1 else 0) + count_in t xs

-- The times of the requests of a type that pass, in a sequence of requests.
pub passed : Text → RateLimiter → List (Text × ℕ) → List ℕ
passed key l [] = []
passed key l ((k, now) ∷ cs) =
    let rest = passed key (check_and_update l k now).1 cs in
    if list_beq k key && (check_and_update l k now).0 then now ∷ rest else rest

-- The clock does not run backwards.
abbrev pub InOrder : ℕ → List (Text × ℕ) → Type 0
InOrder last [] = Unit
InOrder last ((k, now) ∷ cs) = (last ≤ now) × InOrder now cs

count_in-le : (t : ℕ) (xs : List ℕ) → count_in t xs ≤ length xs
unfolding count_in
count_in-le t [] = omega arith
count_in-le t (x ∷ xs) = ground (arith, count_in-le t xs)

count_in-append : (t : ℕ) (xs ys : List ℕ) → count_in t (xs ++ ys) ≡ count_in t xs + count_in t ys
unfolding count_in
count_in-append t [] ys = omega arith
count_in-append t (x ∷ xs) ys = ground (arith, count_in-append t xs ys)

count_in-cons : (t x : ℕ) (xs : List ℕ) → count_in t (x ∷ xs) ≡ count_in t (x ∷ []) + count_in t xs
unfolding count_in
count_in-cons t x xs = omega arith

count_in-late : (t x : ℕ) → t + minute < x → count_in t (x ∷ []) ≡ 0
unfolding count_in
count_in-late t x h = ground arith

-- What is dropped is not counted in a later window.
count_in-retain_after :
    (t start : ℕ) (xs : List ℕ) → start ≤ t → count_in t (retain_after start xs) ≡ count_in t xs
unfolding count_in retain_after
count_in-retain_after t start [] h = refl
count_in-retain_after t start (x ∷ xs) h = ground (arith, count_in-retain_after t start xs h)

length-retain_after : (start : ℕ) (xs : List ℕ) → length (retain_after start xs) ≤ length xs
unfolding retain_after
length-retain_after start [] = omega arith
length-retain_after start (x ∷ xs) = ground (arith, length-retain_after start xs)

passed_later :
    (t last : ℕ) (key : Text) (l : RateLimiter) (cs : List (Text × ℕ))
    → t + minute < last
    → InOrder last cs
    → count_in t (passed key l cs) ≡ 0
unfolding count_in passed
passed_later t last key l [] h o = refl
passed_later t last key l ((k, now) ∷ cs) h o =
    ground (arith, passed_later t now key (check_and_update l k now).1 cs (omega arith) o.1)

abbrev entries : RateLimiter → Text → List ℕ
entries l key = entries_or_new (HashMap.get l.requests key)

-- One request, seen from a type.
module _ (l : RateLimiter) (key : Text) (now : ℕ) where
  kept : List ℕ
  kept = retain_after (now - minute) (entries l key)

  check_refused :
      l.max_requests_per_minute ≤ length kept
      → ((check_and_update l key now).0 ≡ false)
        × (entries (check_and_update l key now).1 key ≡ kept)
  unfolding check_and_update kept
  check_refused h = ground (arith, h, text_self key, get-insert l.requests key key kept)

  check_passed :
      length kept < l.max_requests_per_minute
      → ((check_and_update l key now).0 ≡ true)
        × (entries (check_and_update l key now).1 key ≡ kept ++ now ∷ [])
  unfolding check_and_update kept
  check_passed h =
      ground (arith, h, text_self key, get-insert l.requests key key (kept ++ now ∷ []))

check-other :
    (l : RateLimiter) (k key : Text) (now : ℕ)
    → list_beq k key ≡ false
    → entries (check_and_update l k now).1 key ≡ entries l key
unfolding check_and_update
check-other l k key now h =
    let old = retain_after (now - minute) (entries l k) in
    ground
      (arith, h, get-insert l.requests k key old, get-insert l.requests k key (old ++ now ∷ []))

check-max :
    (l : RateLimiter) (k : Text) (now : ℕ)
    → (check_and_update l k now).1.max_requests_per_minute ≡ l.max_requests_per_minute
unfolding check_and_update
check-max l k now = ground arith

-- One request of the type, before those that follow.
module _ (t : ℕ) (key : Text) (l : RateLimiter) (now : ℕ) (later : List ℕ)
    (h : length (entries l key) ≤ l.max_requests_per_minute)
    (bound : length (entries (check_and_update l key now).1 key) ≤ l.max_requests_per_minute
      → count_in t (entries (check_and_update l key now).1 key) + count_in t later
        ≤ l.max_requests_per_minute)
    (gone : t + minute < now → count_in t later ≡ 0) where
  old_times : now ≤ t + minute → count_in t (kept l key now) ≡ count_in t (entries l key)
  unfolding kept
  old_times early = count_in-retain_after t (now - minute) (entries l key) (omega arith)

  refused_bound :
      l.max_requests_per_minute ≤ length (kept l key now)
      → count_in t (entries l key) + count_in t later ≤ l.max_requests_per_minute
  unfolding kept
  refused_bound full =
      let e = (check_refused l key now full).1 in
      let fewer = length-retain_after (now - minute) (entries l key) in
      let b = bound (rw e (omega (arith, fewer))) in
      elim (dec_lt (t + minute) now) [
        | yes late ↦ omega (arith, gone late, count_in-le t (entries l key))
        | no early ↦ omega (arith, old_times (omega arith), ap (count_in t) e, b)
      ]

  passed_now_bound :
      length (kept l key now) < l.max_requests_per_minute
      → count_in t (entries l key) + count_in t (now ∷ later) ≤ l.max_requests_per_minute
  passed_now_bound free =
      let ks = kept l key now in
      let e = (check_passed l key now free).1 in
      let b = bound (rw e (omega (arith, length-append ks (now ∷ [])))) in
      let new = count_in-cons t now later in
      elim (dec_lt (t + minute) now) [
        | yes late ↦
            omega (arith, new, count_in-late t now late, gone late, count_in-le t (entries l key))
        | no early ↦ omega (
          arith,
          new,
          old_times (omega arith),
          ap (count_in t) e,
          count_in-append t ks (now ∷ []),
          b,
        )
      ]

own_request :
    (t : ℕ) (key : Text) (l : RateLimiter) (now : ℕ) (later : List ℕ)
    → length (entries l key) ≤ l.max_requests_per_minute
    → (length (entries (check_and_update l key now).1 key) ≤ l.max_requests_per_minute
        → count_in t (entries (check_and_update l key now).1 key) + count_in t later
          ≤ l.max_requests_per_minute)
    → (t + minute < now → count_in t later ≡ 0)
    → count_in t (entries l key)
        + count_in t (if (check_and_update l key now).0 then now ∷ later else later)
      ≤ l.max_requests_per_minute
own_request t key l now later h bound gone =
    elim (dec_lt (length (kept l key now)) l.max_requests_per_minute) [
      | yes free ↦
          rw (check_passed l key now free).0 (passed_now_bound t key l now later h bound gone free)
      | no full ↦
          let f : l.max_requests_per_minute ≤ length (kept l key now) = omega arith in
          rw (check_refused l key now f).0 (refused_bound t key l now later h bound gone f)
    ]

own_request_as :
    (t : ℕ) (key k : Text) (l : RateLimiter) (now : ℕ) (later : List ℕ)
    → k ≡ key
    → length (entries l key) ≤ l.max_requests_per_minute
    → (length (entries (check_and_update l k now).1 key) ≤ l.max_requests_per_minute
        → count_in t (entries (check_and_update l k now).1 key) + count_in t later
          ≤ l.max_requests_per_minute)
    → (t + minute < now → count_in t later ≡ 0)
    → count_in t (entries l key)
        + count_in t (if (check_and_update l k now).0 then now ∷ later else later)
      ≤ l.max_requests_per_minute
own_request_as t key k l now later q h bound gone =
    subst
      (λ j.
        (length (entries (check_and_update l j now).1 key) ≤ l.max_requests_per_minute
          → count_in t (entries (check_and_update l j now).1 key) + count_in t later
            ≤ l.max_requests_per_minute)
        → count_in t (entries l key)
            + count_in t (if (check_and_update l j now).0 then now ∷ later else later)
          ≤ l.max_requests_per_minute)
      (sym q) (λ b. own_request t key l now later h b gone) bound

-- Of a window, the times that the limiter holds and the requests that pass later.
passed_bound :
    (t last : ℕ) (key : Text) (l : RateLimiter) (cs : List (Text × ℕ))
    → length (entries l key) ≤ l.max_requests_per_minute
    → InOrder last cs
    → count_in t (entries l key) + count_in t (passed key l cs) ≤ l.max_requests_per_minute
unfolding passed
passed_bound t last key l [] h o = omega (arith, count_in-le t (entries l key), count_in-le t [])
passed_bound t last key l ((k, now) ∷ cs) h o =
    let l' = (check_and_update l k now).1 in
    let max = check-max l k now in
    let ih = λ (h : length (entries l' key) ≤ l'.max_requests_per_minute).
      passed_bound t now key l' cs h o.1 in
    elim (Bool-cases (list_beq k key)) [
      | inr other ↦
          let e = check-other l k key now other in
          rw (other, passed) (omega (arith, ih (rw e (omega arith)), ap (count_in t) e, max))
      | inl same ↦
          let later = passed key l' cs in
          rw same (
            own_request_as t key k l now later ((text_iff k key).0 same) h
              (λ f. omega (arith, ih (omega (arith, f, max)), max))
              (λ late. passed_later t now key l' cs late o.1))
    ]

-- From a new limiter on, while the clock does not run backwards, no minute holds more requests of one
-- type that pass than the limit, wherever the minute begins and whatever requests of other types come
-- between.
pub passed-minute :
    (max t : ℕ) (key : Text) (cs : List (Text × ℕ))
    → InOrder 0 cs
    → count_in t (passed key (new_limiter max) cs) ≤ max
unfolding new_limiter HashMap.get
passed-minute max t key cs o =
    omega (arith, passed_bound t 0 key (new_limiter max) cs (omega arith) o)
