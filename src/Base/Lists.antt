-- ===== src/Base/Lists.antt =====
-- Lists measured by native numbers, under the library's names, and predicates over their items.
use Prim.Native.Nat.{ℕ, zero, suc, ◌+◌}
use mathlib.Core.Bool.{Bool, true}
use mathlib.Core.Logic.{◌⊎◌, inl, inr}
use mathlib.Core.List.{List, [], ◌∷◌, ◌++◌}
use mathlib.Core.Path.{◌≡◌, refl, ap, sym, subst}
use native.Mathlib.Omega.{arith}
use markets_service.Base.Tests.{if◌then◌else◌, Bool-cases}

module _ {ℓ} {A : Type ℓ} where
  abbrev pub length : List A → ℕ
  length [] = 0
  length (x ∷ xs) = suc (length xs)

  abbrev pub take : ℕ → List A → List A
  take zero xs = []
  take (suc n) [] = []
  take (suc n) (x ∷ xs) = x ∷ take n xs

  abbrev pub drop : ℕ → List A → List A
  drop zero xs = xs
  drop (suc n) [] = []
  drop (suc n) (x ∷ xs) = drop n xs

  abbrev pub replicate : ℕ → A → List A
  replicate zero a = []
  replicate (suc n) a = a ∷ replicate n a

  abbrev pub select : (A → Bool) → List A → List A
  select p [] = []
  select p (x ∷ xs) = if p x then x ∷ select p xs else select p xs

  pub length-append : (xs ys : List A) → length (xs ++ ys) ≡ length xs + length ys
  length-append [] ys = omega arith
  length-append (x ∷ xs) ys = omega (arith, length-append xs ys)

  pub length-replicate : (n : ℕ) (a : A) → length (replicate n a) ≡ n
  length-replicate zero a = refl
  length-replicate (suc n) a = ap suc (length-replicate n a)

  pub take-append : (xs ys : List A) → take (length xs) (xs ++ ys) ≡ xs
  take-append [] ys = refl
  take-append (x ∷ xs) ys = ap (λ t. x ∷ t) (take-append xs ys)

  pub drop-append : (xs ys : List A) → drop (length xs) (xs ++ ys) ≡ ys
  drop-append [] ys = refl
  drop-append (x ∷ xs) ys = drop-append xs ys

module _ {ℓ κ} {A : Type ℓ} where
  abbrev pub All : (A → Type κ) → List A → Type κ
  All P [] = Unit
  All P (x ∷ xs) = P x × All P xs

  pub All-append : (P : A → Type κ) (xs ys : List A) → All P xs → All P ys → All P (xs ++ ys)
  All-append P [] ys h k = k
  All-append P (x ∷ xs) ys h k = (h.0, All-append P xs ys h.1 k)

module _ {A : Type 0} where
  -- The item stands in the list.
  abbrev pub Member : A → List A → Type 0
  Member x [] = ⊥
  Member x (y ∷ ys) = (x ≡ y) ⊎ Member x ys

  pub Member-append_left : (x : A) (xs ys : List A) → Member x xs → Member x (xs ++ ys)
  Member-append_left x [] ys h = elim h [ ]
  Member-append_left x (y ∷ xs) ys (inl e) = inl e
  Member-append_left x (y ∷ xs) ys (inr m) = inr (Member-append_left x xs ys m)

  pub All-Member : (P : A → Type 0) (x : A) (xs : List A) → All P xs → Member x xs → P x
  All-Member P x [] h m = elim m [ ]
  All-Member P x (y ∷ ys) h (inl e) = subst P (sym e) h.0
  All-Member P x (y ∷ ys) h (inr m) = All-Member P x ys h.1 m

  -- What `select` keeps is what was there and passes the test.
  pub Member-select :
      (p : A → Bool) (x : A) (xs : List A) → Member x xs → p x ≡ true → Member x (select p xs)
  Member-select p x [] m h = m
  Member-select p x (y ∷ ys) (inl e) h = rw (← e, h) (inl refl)
  Member-select p x (y ∷ ys) (inr m) h = elim (Bool-cases (p y)) [
    | inl b ↦ rw b (inr (Member-select p x ys m h))
    | inr b ↦ rw b (Member-select p x ys m h)
  ]

  Member_of_select_kept :
      (p : A → Bool) (x y : A) (ys : List A)
      → p y ≡ true
      → (Member x (select p ys) → Member x ys × (p x ≡ true))
      → Member x (y ∷ select p ys)
      → Member x (y ∷ ys) × (p x ≡ true)
  Member_of_select_kept p x y ys b rest (inl e) = (inl e, rw e b)
  Member_of_select_kept p x y ys b rest (inr m) = let r = rest m in (inr (r.0), r.1)

  pub Member_of_select :
      (p : A → Bool) (x : A) (xs : List A) → Member x (select p xs) → Member x xs × (p x ≡ true)
  Member_of_select p x [] m = elim m [ ]
  Member_of_select p x (y ∷ ys) m = elim (Bool-cases (p y)) [
    | inl b ↦ Member_of_select_kept p x y ys b (Member_of_select p x ys) (rw b at m)
    | inr b ↦ let r = Member_of_select p x ys (rw b at m) in (inr (r.0), r.1)
  ]
