-- ===== src/Orders/Reach.antt =====
-- The repository as a state machine: each step is one of its transactions that commits. Any
-- interleaving of the clients is a sequence of steps, since each operation is one transaction.
use markets_service.Base.{ℕ, ◌≡◌, true, List, ◌++◌, Option, ok, sym, subst, Member, map}
use markets_service.Base.Int.{ℤ}
use markets_service.Orders.{Order, Store, Numeric, MatchCandidate}
use markets_service.Orders.Book.{expire_orders}
use markets_service.Orders.Effects.{
  Amount, SoundParams, Effects, none_yet, Effects-single, Effects-append, create-Effect,
  cancel_by_owner_nonce-Effect, expire_orders-Effect, acquire_match_candidate-Effects,
  release_match-Effect,
}
use markets_service.Orders.Entry.{CreateOrderParams, create, cancel_by_owner_nonce}
use markets_service.Orders.Matches.{
  acquire_match_candidate, release_match, mark_match_failed, finalize_match_with_price,
}
use markets_service.Orders.Settled.{finalize-Settled, Settled-Effects}
use markets_service.Orders.Validity.{IsValid, terms, Effects-IsValid, Effects-terms}
use markets_service.Orders.Closed.{is_closed, Effects-closed}
use markets_service.Text.{Text}

-- One transaction. The caller of `Create` has checked the amounts, and the caller of
-- `FinalizeMatchWithPrice` passes a natural number.
pub data Step (num : Numeric) (s t : Store) : Type 0 where
  creates :
      (p : CreateOrderParams) (now : ℕ) (o : Order)
      → SoundParams p
      → create num p now s ≡ ok (o, t)
      → Step num s t
  cancels :
      (owner nonce : Text) (o : Order)
      → cancel_by_owner_nonce num owner nonce s ≡ ok (o, t)
      → Step num s t
  expires : (now : ℤ) → t ≡ expire_orders now s → Step num s t
  acquires :
      (asset sub : Text) (now : ℤ) (c : Option MatchCandidate)
      → acquire_match_candidate num asset sub now s ≡ ok (c, t)
      → Step num s t
  releases : (ids : List Text) → t ≡ release_match ids s → Step num s t
  fails : (ids : List Text) (reason : Text) → t ≡ mark_match_failed ids reason s → Step num s t
  finalizes :
      (taker_id maker_id price amount : Text) (n : ℕ)
      → Amount amount n
      → finalize_match_with_price taker_id maker_id price amount s ≡ ok t
      → Step num s t

pub data Reach (num : Numeric) (s : Store) : Store → Type 0 where
  start : Reach num s s
  then_step : {t u : Store} → Reach num s t → Step num t u → Reach num s u

Step-Effects : (num : Numeric) (s t : Store) → IsValid num s → Step num s t → Effects num s t
unfolding mark_match_failed
Step-Effects num s t v (creates p now o sp e) =
    Effects-single ((create-Effect num p now s o t sp e).0)
Step-Effects num s t v (cancels owner nonce o e) =
    Effects-single (cancel_by_owner_nonce-Effect num owner nonce s o t e)
Step-Effects num s t v (expires now e) =
    subst (Effects num s) (sym e) (Effects-single (expire_orders-Effect num now s))
Step-Effects num s t v (acquires asset sub now c e) =
    acquire_match_candidate-Effects num asset sub now s c t e
Step-Effects num s t v (releases ids e) =
    subst (Effects num s) (sym e) (Effects-single (release_match-Effect num ids s))
Step-Effects num s t v (fails ids reason e) =
    subst (Effects num s) (sym e) (Effects-single (release_match-Effect num ids s))
Step-Effects num s t v (finalizes taker_id maker_id price amount n an e) =
    Settled-Effects num taker_id maker_id price amount n s t
      (finalize-Settled num taker_id maker_id price amount n s t v an e)

Reach-Effects : (num : Numeric) (s t : Store) → IsValid num s → Reach num s t → Effects num s t
Reach-Effects num s t v start = none_yet
Reach-Effects num s t v (then_step {t = u} r st) =
    let es = Reach-Effects num s u v r in
    Effects-append es (Step-Effects num u t (Effects-IsValid s u v es) st)

-- From a store that satisfies the invariant, every sequence of transactions in which created orders
-- have checked amounts and matches are finalized for natural numbers leads to one that satisfies it:
-- no two rows share an id, no two share an owner and a nonce, no row is filled beyond its desired
-- amount, and every row of status `filled` is filled to the end.
pub Reach-IsValid : (num : Numeric) (s t : Store) → IsValid num s → Reach num s t → IsValid num t
Reach-IsValid num s t v r = Effects-IsValid s t v (Reach-Effects num s t v r)

-- Along every sequence of transactions (`Step`) from a store that satisfies the invariant, a row whose
-- status is filled, cancelled or expired stays as it is, in every field.
pub Reach-closed :
    (num : Numeric) (s t : Store) (o : Order)
    → IsValid num s
    → Reach num s t
    → is_closed o.status ≡ true
    → Member o s.orders
    → Member o t.orders
Reach-closed num s t o v r c m = Effects-closed s t o v (Reach-Effects num s t v r) c m

-- Along every sequence of transactions (`Step`) from a store that satisfies the invariant, the table
-- only grows at its end, and no row changes in anything but its status and its filled amount.
pub Reach-terms :
    (num : Numeric) (s t : Store)
    → IsValid num s
    → Reach num s t
    → (new : List Order) × (map terms t.orders ≡ map terms s.orders ++ new)
Reach-terms num s t v r = Effects-terms s t (Reach-Effects num s t v r)
