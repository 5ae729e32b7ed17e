-- ===== src/Orders/Book/Sorting.antt =====
-- The order of the rows of one side: the sort gives a sorted list of the same rows.
use markets_service.Base.{
  ◌≡◌, refl, true, false, List, [], ◌∷◌, arith, All, Member, Bool-cases, inl, inr,
}
use markets_service.Orders.{Side, buy, sell, other}
use markets_service.Orders.Book.{Keyed, precedes, insert_row, order_by}

-- No row of the list stands before this one.
abbrev pub First : Side → Keyed → List Keyed → Type 0
First s x = All (λ y. precedes s y x ≡ false)

abbrev pub IsSorted : Side → List Keyed → Type 0
IsSorted s [] = Unit
IsSorted s (x ∷ xs) = First s x xs × IsSorted s xs

precedes_asym : (s : Side) (x y : Keyed) → precedes s x y ≡ true → precedes s y x ≡ false
unfolding precedes
precedes_asym buy x y h = ground arith
precedes_asym sell x y h = ground arith
precedes_asym (other t) x y h = ground arith

pub precedes_irrefl : (s : Side) (x : Keyed) → precedes s x x ≡ false
unfolding precedes
precedes_irrefl buy x = ground arith
precedes_irrefl sell x = ground arith
precedes_irrefl (other t) x = ground arith

-- Not to stand before is transitive.
precedes_trans :
    (s : Side) (x y z : Keyed)
    → precedes s y x ≡ false
    → precedes s z y ≡ false
    → precedes s z x ≡ false
unfolding precedes
precedes_trans buy x y z h k = ground arith
precedes_trans sell x y z h k = ground arith
precedes_trans (other t) x y z h k = ground arith

First-trans :
    (s : Side) (x y : Keyed) (zs : List Keyed)
    → precedes s y x ≡ false
    → First s y zs
    → First s x zs
First-trans s x y [] h k = tt
First-trans s x y (z ∷ zs) h k = (precedes_trans s x y z h k.0, First-trans s x y zs h k.1)

First-insert_row :
    (s : Side) (x y : Keyed) (ys : List Keyed)
    → precedes s x y ≡ false
    → First s y ys
    → First s y (insert_row s x ys)
unfolding insert_row
First-insert_row s x y [] h k = (h, tt)
First-insert_row s x y (z ∷ zs) h k = elim (Bool-cases (precedes s z x)) [
  | inl b ↦ rw b (k.0, First-insert_row s x y zs h k.1)
  | inr b ↦ rw b (h, k)
]

insert_row-IsSorted :
    (s : Side) (x : Keyed) (ys : List Keyed) → IsSorted s ys → IsSorted s (insert_row s x ys)
unfolding insert_row
insert_row-IsSorted s x [] h = (tt, tt)
insert_row-IsSorted s x (y ∷ ys) h = elim (Bool-cases (precedes s y x)) [
  | inl b ↦
      rw b (First-insert_row s x y ys (precedes_asym s y x b) h.0, insert_row-IsSorted s x ys h.1)
  | inr b ↦ rw b ((b, First-trans s x y ys b h.0), h)
]

pub order_by-IsSorted : (s : Side) (xs : List Keyed) → IsSorted s (order_by s xs)
unfolding order_by
order_by-IsSorted s [] = tt
order_by-IsSorted s (x ∷ xs) = insert_row-IsSorted s x (order_by s xs) (order_by-IsSorted s xs)

Member-insert_row_self : (s : Side) (x : Keyed) (ys : List Keyed) → Member x (insert_row s x ys)
unfolding insert_row
Member-insert_row_self s x [] = inl refl
Member-insert_row_self s x (y ∷ ys) = elim (Bool-cases (precedes s y x)) [
  | inl b ↦ rw b (inr (Member-insert_row_self s x ys))
  | inr b ↦ rw b (inl refl)
]

Member-insert_row :
    (s : Side) (x z : Keyed) (ys : List Keyed) → Member z ys → Member z (insert_row s x ys)
unfolding insert_row
Member-insert_row s x z [] m = elim m [ ]
Member-insert_row s x z (y ∷ ys) (inl e) = elim (Bool-cases (precedes s y x)) [
  | inl b ↦ rw b (inl e)
  | inr b ↦ rw b (inr (inl e))
]
Member-insert_row s x z (y ∷ ys) (inr m) = elim (Bool-cases (precedes s y x)) [
  | inl b ↦ rw b (inr (Member-insert_row s x z ys m))
  | inr b ↦ rw b (inr (inr m))
]

inserted :
    (s : Side) (x z y : Keyed) (ys : List Keyed)
    → (Member z (insert_row s x ys) → Member z (x ∷ ys))
    → Member z (y ∷ insert_row s x ys)
    → Member z (x ∷ y ∷ ys)
inserted s x z y ys rest (inl e) = inr (inl e)
inserted s x z y ys rest (inr m) = elim (rest m) [ inl e ↦ inl e | inr k ↦ inr (inr k) ]

Member_of_insert_row :
    (s : Side) (x z : Keyed) (ys : List Keyed) → Member z (insert_row s x ys) → Member z (x ∷ ys)
unfolding insert_row
Member_of_insert_row s x z [] m = m
Member_of_insert_row s x z (y ∷ ys) m = elim (Bool-cases (precedes s y x)) [
  | inl b ↦ inserted s x z y ys (Member_of_insert_row s x z ys) (rw b at m)
  | inr b ↦ rw b at m
]

pub Member-order_by :
    (s : Side) (z : Keyed) (xs : List Keyed) → Member z xs → Member z (order_by s xs)
unfolding order_by
Member-order_by s z [] m = m
Member-order_by s z (x ∷ xs) (inl e) = rw e (Member-insert_row_self s x (order_by s xs))
Member-order_by s z (x ∷ xs) (inr m) =
    Member-insert_row s x z (order_by s xs) (Member-order_by s z xs m)

pub Member_of_order_by :
    (s : Side) (z : Keyed) (xs : List Keyed) → Member z (order_by s xs) → Member z xs
unfolding order_by
Member_of_order_by s z [] m = m
Member_of_order_by s z (x ∷ xs) m = elim (Member_of_insert_row s x z (order_by s xs) m) [
  | inl e ↦ inl e
  | inr k ↦ inr (Member_of_order_by s z xs k)
]
