-- ===== src/Orders/Table/Laws.antt =====
-- What an update leaves as it was, and what a search has found.
use markets_service.Base.{
  ◌≡◌, refl, ap, ap₂, sym, subst, Bool, true, false, List, [], ◌∷◌, map, none, some, arith, All,
  Member, ◌⊎◌, inl, inr, Bool-cases,
}
use markets_service.Orders.{Order}
use markets_service.Orders.Table.{find_row, update_where}

-- A part of the rows that the change leaves alone is the same after the update.
pub map-update_where :
    {B : Type 0} (g : Order → B) (test : Order → Bool) (change : Order → Order) (os : List Order)
    → ((o : Order) → g (change o) ≡ g o)
    → map g (update_where test change os) ≡ map g os
unfolding update_where
map-update_where g test change [] same = refl
map-update_where g test change (o ∷ os) same = elim (Bool-cases (test o)) [
  | inl t ↦ rw t (ap₂ (λ x xs. x ∷ xs) (same o) (map-update_where g test change os same))
  | inr f ↦ rw f (ap (λ xs. g o ∷ xs) (map-update_where g test change os same))
]

-- A property of the rows is kept if the change keeps it on the rows that it meets.
pub All-update_where :
    (P : Order → Type 0) (test : Order → Bool) (change : Order → Order) (os : List Order)
    → ((o : Order) → Member o os → test o ≡ true → P o → P (change o))
    → All P os
    → All P (update_where test change os)
unfolding update_where
All-update_where P test change [] keep h = tt
All-update_where P test change (o ∷ os) keep h = elim (Bool-cases (test o)) [
  | inl t ↦
      rw t (keep o (inl refl) t h.0, All-update_where P test change os (λ r m. keep r (inr m)) h.1)
  | inr f ↦ rw f (h.0, All-update_where P test change os (λ r m. keep r (inr m)) h.1)
]

-- A row that the test does not meet stays.
pub Member-update_where :
    (o : Order) (test : Order → Bool) (change : Order → Order) (os : List Order)
    → test o ≡ false
    → Member o os
    → Member o (update_where test change os)
unfolding update_where
Member-update_where o test change [] f m = elim m [ ]
Member-update_where o test change (r ∷ os) f (inl e) = rw (← e, f) (inl refl)
Member-update_where o test change (r ∷ os) f (inr m) =
    inr (Member-update_where o test change os f m)

-- A row that the test meets is there in its changed form.
pub Member-update_where_met :
    (o : Order) (test : Order → Bool) (change : Order → Order) (os : List Order)
    → test o ≡ true
    → Member o os
    → Member (change o) (update_where test change os)
unfolding update_where
Member-update_where_met o test change [] t m = elim m [ ]
Member-update_where_met o test change (r ∷ os) t (inl e) = rw (← e, t) (inl refl)
Member-update_where_met o test change (r ∷ os) t (inr m) =
    inr (Member-update_where_met o test change os t m)

pub find_row-some :
    (test : Order → Bool) (os : List Order) (o : Order)
    → find_row test os ≡ some o
    → Member o os × (test o ≡ true)
unfolding find_row
find_row-some test [] o h = cc
find_row-some test (r ∷ os) o h = elim (Bool-cases (test r)) [
  | inl t ↦ let e : o ≡ r = cc (rw (t, find_row) at h) in (inl e, rw e t)
  | inr f ↦ let (m, t) = find_row-some test os o (ground arith) in (inr m, t)
]

pub find_row-none :
    (test : Order → Bool) (os : List Order) → find_row test os ≡ none → All (λ o. test o ≡ false) os
unfolding find_row
find_row-none test [] h = tt
find_row-none test (r ∷ os) h = elim (Bool-cases (test r)) [
  | inl t ↦ absurd (ground arith)
  | inr f ↦ (f, find_row-none test os (ground arith))
]

pub All-map :
    {B : Type 0} (P : B → Type 0) (g : Order → B) (os : List Order) (o : Order)
    → All P (map g os)
    → Member o os
    → P (g o)
All-map P g [] o h m = elim m [ ]
All-map P g (r ∷ os) o h (inl e) = subst (λ x. P (g x)) (sym e) h.0
All-map P g (r ∷ os) o h (inr m) = All-map P g os o h.1 m

-- Where a row of the updated table comes from.
pub Member_of_update_where :
    (r : Order) (test : Order → Bool) (change : Order → Order) (os : List Order)
    → Member r (update_where test change os)
    → Member r os ⊎ ((o : Order) × Member o os × (test o ≡ true) × (r ≡ change o))
unfolding update_where
Member_of_update_where r test change [] m = elim m [ ]
Member_of_update_where r test change (o ∷ os) (inl e) = elim (Bool-cases (test o)) [
  | inl t ↦ inr (o, inl refl, t, ground (arith, e))
  | inr f ↦ inl (inl (ground (arith, e)))
]
Member_of_update_where r test change (o ∷ os) (inr m) =
    elim (Member_of_update_where r test change os m) [
      | inl there ↦ inl (inr there)
      | inr (x, there, t, e) ↦ inr (x, inr there, t, e)
    ]
