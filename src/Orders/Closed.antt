-- ===== src/Orders/Closed.antt =====
-- Orders that are filled, cancelled or expired: no change touches them.
use markets_service.Base.{
  ◌+◌, ◌≡◌, ◌⊎◌, inl, inr, refl, sym, ap, subst, Bool, true, false, [], ◌∷◌, Member,
  Member-append_left, Bool-cases,
}
use markets_service.Base.Int.{pos}
use markets_service.Orders.{
  Order, Store, Status, active, matching, filled, cancelled, expired, Numeric,
}
use markets_service.Orders.Effects.{
  Effect, inserted, moved, topped_up, traded, Effects, none_yet, then_do, Allowed, reserve, release,
  cancel, expire,
}
use markets_service.Orders.Matches.{filled_to}
use markets_service.Orders.Table.{has_id, set_status}
use markets_service.Orders.Table.Laws.{Member-update_where}
use markets_service.Text.Decimal.{print_int}
use markets_service.Orders.Validity.{IsValid, same_row, Effects-IsValid}

-- An order that takes no more part.
abbrev pub is_closed : Status → Bool
is_closed active = false
is_closed matching = false
is_closed filled = true
is_closed cancelled = true
is_closed expired = true

Allowed-is_closed : (old new : Status) → Allowed old new → is_closed old ≡ false
Allowed-is_closed old new reserve = refl
Allowed-is_closed old new release = refl
Allowed-is_closed old new cancel = refl
Allowed-is_closed old new expire = refl

not_met :
    (test : Order → Bool) (old new : Status) (o : Order)
    → Allowed old new
    → ((r : Order) → test r ≡ true → r.status ≡ old)
    → is_closed o.status ≡ true
    → test o ≡ false
not_met test old new o a only c = elim (Bool-cases (test o)) [
  | inr f ↦ f
  | inl t ↦ absurd (cc (Allowed-is_closed old new a, only o t))
]

-- A closed row stays as it is, in every field.
pub Effect-closed :
    {num : Numeric} (s t : Store) (o : Order)
    → IsValid num s
    → Effect num s t
    → is_closed o.status ≡ true
    → Member o s.orders
    → Member o t.orders
Effect-closed s t o v (inserted r st sound fresh e g) c m =
    subst (Member o) (sym e) (Member-append_left o s.orders (r ∷ []) m)
Effect-closed s t o v (moved test old new a only e g) c m =
    subst (Member o) (sym e)
      (Member-update_where o test (set_status new) s.orders (not_met test old new o a only c) m)
Effect-closed {num} s t o v (topped_up r d f n st mr res ad af fs e g) c m =
    subst (Member o) (sym e) (
      Member-update_where o (has_id r.order_id) (filled_to (print_int (pos (f + n))) st) s.orders
        (another (Bool-cases (has_id r.order_id o))) m)
  where
    another :
        (has_id r.order_id o ≡ true) ⊎ (has_id r.order_id o ≡ false) → has_id r.order_id o ≡ false
    another (inr no_match) = no_match
    another (inl match) = absurd (
        cc (
          ap (λ (x : Order). is_closed x.status) (same_row num s.orders r o v.no_clash mr m match),
          ap is_closed res,
        ))
Effect-closed s t o v (traded fill e g) c m = subst (Member o) (sym e) m

pub Effects-closed :
    {num : Numeric} (s t : Store) (o : Order)
    → IsValid num s
    → Effects num s t
    → is_closed o.status ≡ true
    → Member o s.orders
    → Member o t.orders
Effects-closed s t o v none_yet c m = m
Effects-closed s t o v (then_do {t = u} es e) c m =
    Effect-closed u t o (Effects-IsValid s u v es) e c (Effects-closed s u o v es c m)
