-- ===== src/Orders/Validity.antt =====
-- The invariant of the order table: no two rows share an id, nor an owner and a nonce, and the
-- amounts of every row are sound.
use markets_service.Base.{
  ℕ, ◌+◌, ◌≡◌, inl, inr, refl, sym, ap, subst, ◌∙◌, Bool, true, false, ◌||◌, List, [], ◌∷◌, ◌++◌,
  map, map-append, append-nil, append_assoc, arith, All, All-append, Member,
}
use markets_service.Base.Int.{pos}
use markets_service.Orders.{Order, Store, Status, active, Numeric}
use markets_service.Orders.Effects.{
  Amount, IsSound, Fresh, FillStatus, Effect, inserted, moved, topped_up, traded, Effects, none_yet,
  then_do, Allowed, reserve, release, cancel, expire,
}
use markets_service.Orders.Entry.{owns_nonce}
use markets_service.Orders.Matches.{filled_to}
use markets_service.Orders.Table.{has_id, set_status}
use markets_service.Orders.Table.Laws.{map-update_where, All-update_where, All-map}
use markets_service.Text.Laws.{text_eq_refl, text_eq_iff}
use markets_service.Text.Decimal.{print_int}
use markets_service.Text.Decimal.Laws.{set_string-print_int}

-- What an order is for good: all but its status and its filled amount.
unfoldable pub terms : Order → Order
terms o = record o { filled_amount = []; status = active }

-- Two orders of one id, or of one owner and nonce.
abbrev pub clash : Numeric → Order → Order → Bool
clash num i j = has_id j.order_id i || owns_nonce num j.owner_address j.nonce i

abbrev pub NoClash : Numeric → List Order → Type 0
NoClash num [] = Unit
NoClash num (o ∷ os) = All (λ r. clash num o r ≡ false) os × NoClash num os

pub record IsValid (num : Numeric) (s : Store) : Type 0 where
  pub no_clash : NoClash num (map terms s.orders)
  pub sound : All IsSound s.orders

Fresh-clash :
    (num : Numeric) (o : Order) (os : List Order)
    → Fresh num o os
    → All (λ r. clash num r (terms o) ≡ false) (map terms os)
unfolding terms
Fresh-clash num o [] h = tt
Fresh-clash num o (r ∷ os) h = (ground (arith, h.0), Fresh-clash num o os h.1)

NoClash-append :
    (num : Numeric) (xs : List Order) (o : Order)
    → NoClash num xs
    → All (λ r. clash num r o ≡ false) xs
    → NoClash num (xs ++ o ∷ [])
NoClash-append num [] o h k = (tt, tt)
NoClash-append num (x ∷ xs) o h k = (
  All-append (λ r. clash num x r ≡ false) xs (o ∷ []) h.0 (k.0, tt),
  NoClash-append num xs o h.1 k.1,
)

-- The row of an id is one.
pub same_row :
    (num : Numeric) (os : List Order) (o r : Order)
    → NoClash num (map terms os)
    → Member o os
    → Member r os
    → has_id o.order_id r ≡ true
    → r ≡ o
unfolding terms
same_row num [] o r h m n e = elim m [ ]
same_row num (x ∷ os) o r h (inl p) (inl q) e = q ∙ sym p
same_row num (x ∷ os) o r h (inl p) (inr n) e =
    absurd (differ (All-map (λ y. clash num (terms x) y ≡ false) terms os r h.0 n))
  where
    differ : clash num (terms x) (terms r) ≡ false → ⊥
    differ c = ground (
      arith,
      text_eq_refl r.order_id,
      (text_eq_iff r.order_id o.order_id).0 e,
      ap (λ (y : Order). y.order_id) p,
    )
same_row num (x ∷ os) o r h (inr m) (inl q) e =
    absurd (differ (All-map (λ y. clash num (terms x) y ≡ false) terms os o h.0 m))
  where
    differ : clash num (terms x) (terms o) ≡ false → ⊥
    differ c = ground (arith, e, ap (λ (y : Order). y.order_id) q)
same_row num (x ∷ os) o r h (inr m) (inr n) e = same_row num os o r h.1 m n e

IsSound-set_status :
    (old new : Status) (o : Order) → Allowed old new → IsSound o → IsSound (set_status new o)
IsSound-set_status old new o reserve (d, f, ad, af, le, fin) = (d, f, ad, af, le, inl refl)
IsSound-set_status old new o release (d, f, ad, af, le, fin) = (d, f, ad, af, le, inl refl)
IsSound-set_status old new o cancel (d, f, ad, af, le, fin) = (d, f, ad, af, le, inl refl)
IsSound-set_status old new o expire (d, f, ad, af, le, fin) = (d, f, ad, af, le, inl refl)

IsSound-filled_to :
    (o : Order) (d k : ℕ) (st : Status)
    → Amount o.desired_amount d
    → FillStatus k d st
    → IsSound (filled_to (print_int (pos k)) st o)
IsSound-filled_to o d k st ad (inl (lt, e)) =
    (d, k, ad, set_string-print_int (pos k), omega arith, inl (rw e))
IsSound-filled_to o d k st ad (inr (same, e)) =
    (d, k, ad, set_string-print_int (pos k), omega arith, inr same)

-- The new orders that a change brings, with their terms.
pub Effect-terms :
    {num : Numeric} (s t : Store)
    → Effect num s t
    → (new : List Order) × (map terms t.orders ≡ map terms s.orders ++ new)
unfolding terms
Effect-terms s t (inserted o st sound fresh e g) =
    (terms o ∷ [], ap (map terms) e ∙ map-append terms s.orders (o ∷ []))
Effect-terms s t (moved test old new a only e g) = (
  [],
  ap (map terms) e
      ∙ map-update_where terms test (set_status new) s.orders (λ o. refl)
      ∙ sym (append-nil (map terms s.orders)),
)
Effect-terms s t (topped_up o d f n st m r ad af fs e g) = (
  [],
  ap (map terms) e
      ∙ map-update_where terms (has_id o.order_id) (filled_to (print_int (pos (f + n))) st) s.orders
          (λ x. refl)
      ∙ sym (append-nil (map terms s.orders)),
)
Effect-terms s t (traded fill e g) = ([], ap (map terms) e ∙ sym (append-nil (map terms s.orders)))

-- Every change keeps the invariant.
pub Effect-IsValid : {num : Numeric} (s t : Store) → IsValid num s → Effect num s t → IsValid num t
unfolding terms
Effect-IsValid {num} s t v (inserted o st sound fresh e g) = record {
  no_clash =
      subst (λ os. NoClash num (map terms os)) (sym e)
        (rw (map-append terms s.orders (o ∷ [])) (
          NoClash-append num (map terms s.orders) (terms o) v.no_clash
            (Fresh-clash num o s.orders fresh)));
  sound = subst (All IsSound) (sym e) (All-append IsSound s.orders (o ∷ []) v.sound (sound, tt));
}
Effect-IsValid {num} s t v (moved test old new a only e g) = record {
  no_clash =
      subst (λ os. NoClash num (map terms os)) (sym e)
        (subst (NoClash num)
          (sym (map-update_where terms test (set_status new) s.orders (λ o. refl))) v.no_clash);
  sound = subst (All IsSound) (sym e) (
      All-update_where IsSound test (set_status new) s.orders
        (λ o m met so. IsSound-set_status old new o a so) v.sound);
}
Effect-IsValid {num} s t v (topped_up o d f n st m r ad af fs e g) =
    let change = filled_to (print_int (pos (f + n))) st in
    record {
      no_clash =
          subst (λ os. NoClash num (map terms os)) (sym e)
            (subst (NoClash num)
              (sym (map-update_where terms (has_id o.order_id) change s.orders (λ x. refl)))
              v.no_clash);
      sound = subst (All IsSound) (sym e) (
          All-update_where IsSound (has_id o.order_id) change s.orders
            (λ x mx met so.
              IsSound-filled_to x d (f + n) st
                (rw (same_row num s.orders o x v.no_clash m mx met) ad) fs)
            v.sound);
    }
Effect-IsValid {num} s t v (traded fill e g) = record {
  no_clash = subst (λ os. NoClash num (map terms os)) (sym e) v.no_clash;
  sound = subst (All IsSound) (sym e) v.sound;
}

-- The same along a run of changes.
pub Effects-IsValid :
    {num : Numeric} (s t : Store) → IsValid num s → Effects num s t → IsValid num t
Effects-IsValid s t v none_yet = v
Effects-IsValid s t v (then_do {t = u} es e) = Effect-IsValid u t (Effects-IsValid s u v es) e

pub Effects-terms :
    {num : Numeric} (s t : Store)
    → Effects num s t
    → (new : List Order) × (map terms t.orders ≡ map terms s.orders ++ new)
Effects-terms s t none_yet = ([], sym (append-nil (map terms s.orders)))
Effects-terms s t (then_do {t = u} es e) =
    let (a, p) = Effects-terms s u es in
    let (b, q) = Effect-terms u t e in
    (a ++ b, q ∙ ap (λ xs. xs ++ b) p ∙ append_assoc (map terms s.orders) a b)
