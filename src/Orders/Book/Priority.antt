-- ===== src/Orders/Book/Priority.antt =====
-- Price-time priority: the rows that a query of the book gives, and their order.
use markets_service.Base.{
  ◌≡◌, refl, sym, ap, true, false, List, [], ◌∷◌, take, select, none, some, ok, err, ◌>>=◌,
  or_error, arith, Member, All-Member, Member-select, Member_of_select, Bool-cases, inl, inr, subst,
  ◌≤◌, ◌⊎◌, >>=-eq-ok, or_error-eq-ok,
}
use markets_service.Base.Int.{ℤ, ◌<ℤ◌, eq_of_parts}
use markets_service.Orders.{Side, buy, sell, other, Order, Store, bad_ticks, bad_numeric, Numeric}
use markets_service.Orders.Book.{
  Keyed, keyed_rows, precedes, order_by, rows, resting, side_of_book, list_by_side, best_by_side,
  first_row,
}
use markets_service.Text.{Text}
use markets_service.Text.Decimal.{set_string}
use markets_service.Orders.Book.Sorting.{
  First, IsSorted, precedes_irrefl, order_by-IsSorted, Member-order_by, Member_of_order_by,
}

-- The query's rows carry the numbers of their prices, and no row is lost.
keyed_cons :
    (o : Order) (os : List Order) {ks : List Keyed}
    → keyed_rows (o ∷ os) ≡ ok ks
    → (key : ℤ) × (rest : List Keyed) × (set_string o.limit_price_ticks ≡ some key)
      × (keyed_rows os ≡ ok rest)
      × ((key, o) ∷ rest ≡ ks)
unfolding keyed_rows
keyed_cons o os h =
    let (key, e, h') = >>=-eq-ok (or_error (set_string o.limit_price_ticks) bad_ticks) _ h in
    let (rest, r, h'') = >>=-eq-ok (keyed_rows os) _ h' in
    (key, rest, or_error-eq-ok (set_string o.limit_price_ticks) bad_ticks e, r, cc)

keyed_rows_sound :
    (os : List Order) (ks : List Keyed) (z : Keyed)
    → keyed_rows os ≡ ok ks
    → Member z ks
    → Member z.1 os × (set_string (z.1).limit_price_ticks ≡ some z.0)
unfolding keyed_rows
keyed_rows_sound [] ks z h m = let q : [] ≡ ks = cc in elim (subst (Member z) (sym q) m) [ ]
keyed_rows_sound (o ∷ os) ks z h m =
    let (key, rest, e, r, q) = keyed_cons o os h in
    elim (subst (Member z) (sym q) m) [
      | inl p ↦ (inl (ap (λ t. t.1) p), rw p e)
      | inr k ↦ let y = keyed_rows_sound os rest z r k in (inr (y.0), y.1)
    ]

keyed_rows_complete :
    (os : List Order) (ks : List Keyed) (k : ℤ) (o : Order)
    → keyed_rows os ≡ ok ks
    → Member o os
    → set_string o.limit_price_ticks ≡ some k
    → Member (k, o) ks
keyed_rows_complete [] ks k o h m e = elim m [ ]
keyed_rows_complete (r ∷ os) ks k o h m e =
    let (key, rest, e', r', q) = keyed_cons r os h in
    subst (Member (k, o)) q
      (elim m [ inl p ↦ inl (cc) | inr n ↦ inr (keyed_rows_complete os rest k o r' n e) ])

-- The first of the two rows comes before the second by price, or at the same price is as old.
abbrev pub Outranks : Side → Keyed → Keyed → Type 0
Outranks sell x y = (x.0 <ℤ y.0) ⊎ ((x.0 ≡ y.0) × ((x.1).created_at ≤ (y.1).created_at))
Outranks _ x y = (y.0 <ℤ x.0) ⊎ ((x.0 ≡ y.0) × ((x.1).created_at ≤ (y.1).created_at))

Outranks-precedes : (s : Side) (x y : Keyed) → precedes s y x ≡ false → Outranks s x y
unfolding precedes
Outranks-precedes buy x y h = grind (arith, eq_of_parts)
Outranks-precedes sell x y h = grind (arith, eq_of_parts)
Outranks-precedes (other t) x y h = grind (arith, eq_of_parts)

module _ (num : Numeric) (asset sub : Text) (side : Side) (s : Store) where
  side_of_book_parts :
      (ks : List Keyed)
      → side_of_book num asset sub side s ≡ ok ks
      → (keyed : List Keyed) × (keyed_rows (select (resting num asset sub side) s.orders)
          ≡ ok keyed)
        × (order_by side keyed ≡ ks)
  unfolding side_of_book
  side_of_book_parts ks h =
      let (n, e, h') = >>=-eq-ok (or_error (num.stored sub) bad_numeric) _ h in
      let (keyed, r, h'') =
        >>=-eq-ok (keyed_rows (select (resting num asset sub side) s.orders)) _ h' in
      (keyed, r, cc)

  -- The rows of one side of the book are sorted.
  pub side_of_book-IsSorted :
      (ks : List Keyed) → side_of_book num asset sub side s ≡ ok ks → IsSorted side ks
  side_of_book-IsSorted ks h =
      let (keyed, r, q) = side_of_book_parts ks h in
      subst (IsSorted side) q (order_by-IsSorted side keyed)

  -- They are the resting orders of that side, each with its price, and no other.
  pub side_of_book_sound :
      (ks : List Keyed) (z : Keyed)
      → side_of_book num asset sub side s ≡ ok ks
      → Member z ks
      → Member z.1 s.orders
        × (resting num asset sub side z.1 ≡ true)
        × (set_string (z.1).limit_price_ticks ≡ some z.0)
  side_of_book_sound ks z h m =
      let (keyed, r, q) = side_of_book_parts ks h in
      let n = Member_of_order_by side z keyed (subst (Member z) (sym q) m) in
      let (found, price) = keyed_rows_sound _ keyed z r n in
      let (there, ok_row) = Member_of_select (resting num asset sub side) z.1 s.orders found in
      (there, ok_row, price)

  pub side_of_book_complete :
      (ks : List Keyed) (k : ℤ) (o : Order)
      → side_of_book num asset sub side s ≡ ok ks
      → Member o s.orders
      → resting num asset sub side o ≡ true
      → set_string o.limit_price_ticks ≡ some k
      → Member (k, o) ks
  side_of_book_complete ks k o h m t e =
      let (keyed, r, q) = side_of_book_parts ks h in
      subst (Member (k, o)) q (
        Member-order_by side (k, o) keyed
          (keyed_rows_complete _ keyed k o r
            (Member-select (resting num asset sub side) o s.orders m t) e))

  best_by_side_head :
      (o : Order)
      → best_by_side num asset sub side s ≡ ok (some o)
      → (k : ℤ) × (ks : List Keyed) × (side_of_book num asset sub side s ≡ ok ((k, o) ∷ ks))
  unfolding best_by_side list_by_side
  best_by_side_head o h =
      elim (side_of_book num asset sub side s)
          as (λ b.
            (b >>= (λ keyed. ok (take 1 (rows keyed))) >>= (λ l. ok (first_row l))) ≡ ok (some o)
            → (k : ℤ) × (ks : List Keyed) × (b ≡ ok ((k, o) ∷ ks))) [
              | err e ↦ λ q. cc
              | ok [] ↦ λ q. cc
              | ok ((k, r) ∷ ks) ↦ λ q. (k, ks, cc)
            ]
        h

  pub best_by_side_sound :
      (o : Order)
      → best_by_side num asset sub side s ≡ ok (some o)
      → (k : ℤ) × Member o s.orders
        × (resting num asset sub side o ≡ true)
        × (set_string o.limit_price_ticks ≡ some k)
  best_by_side_sound o h =
      let (k, ks, b) = best_by_side_head o h in
      let (there, rests, price) = side_of_book_sound _ (k, o) b (inl refl) in
      (k, there, rests, price)

  ranked :
      (k k' : ℤ) (o r : Order) (ks : List Keyed)
      → First side (k, o) ks
      → Member (k', r) ((k, o) ∷ ks)
      → Outranks side (k, o) (k', r)
  ranked k k' o r ks h (inl e) =
      Outranks-precedes side (k, o) (k', r) (rw e (precedes_irrefl side (k, o)))
  ranked k k' o r ks h (inr m) =
      Outranks-precedes side (k, o) (k', r)
        (All-Member (λ y. precedes side y (k, o) ≡ false) (k', r) ks h m)

  -- If an order of that side of the market rests whose price is a number, the order that `bestBySide`
  -- and `lockBestBySide` give is a resting order of that side in the table, its price is a number, and
  -- it outranks the first: by a better price, or at the same price by being at least as old.
  pub best_by_side_first :
      (o r : Order) (k' : ℤ)
      → best_by_side num asset sub side s ≡ ok (some o)
      → Member r s.orders
      → resting num asset sub side r ≡ true
      → set_string r.limit_price_ticks ≡ some k'
      → (k : ℤ) × Member o s.orders
        × (resting num asset sub side o ≡ true)
        × (set_string o.limit_price_ticks ≡ some k)
        × Outranks side (k, o) (k', r)
  best_by_side_first o r k' h m t e =
      let (k, ks, b) = best_by_side_head o h in
      let (there, rests, price) = side_of_book_sound _ (k, o) b (inl refl) in
      let sorted = side_of_book-IsSorted _ b in
      (k, there, rests, price, ranked k k' o r ks (sorted.0) (side_of_book_complete _ k' r b m t e))

  best_by_side_nil :
      best_by_side num asset sub side s ≡ ok none → side_of_book num asset sub side s ≡ ok []
  unfolding best_by_side list_by_side
  best_by_side_nil h =
      elim (side_of_book num asset sub side s)
          as (λ b.
            (b >>= (λ keyed. ok (take 1 (rows keyed))) >>= (λ l. ok (first_row l))) ≡ ok none
            → b ≡ ok []) [ err e ↦ λ q. cc | ok [] ↦ λ q. refl | ok ((k, r) ∷ ks) ↦ λ q. cc ]
        h

  -- When the search of a side succeeds and finds no order, no row whose price is a number rests on
  -- that side of the market.
  pub best_by_side-none :
      (r : Order) (k : ℤ)
      → best_by_side num asset sub side s ≡ ok none
      → Member r s.orders
      → set_string r.limit_price_ticks ≡ some k
      → resting num asset sub side r ≡ false
  best_by_side-none r k h m e = elim (Bool-cases (resting num asset sub side r)) [
    | inr f ↦ f
    | inl t ↦ absurd (elim (side_of_book_complete [] k r (best_by_side_nil h) m t e) [ ])
  ]
