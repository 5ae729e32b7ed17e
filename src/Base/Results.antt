-- ===== src/Base/Results.antt =====
-- A value, or an error: Go's `(T, error)`. The second operation of a `do` block runs only if the
-- first one succeeded.
use mathlib.Core.Bool.{Bool, true, false}
use mathlib.Core.Option.{Option, none, some}
use mathlib.Core.Path.{◌≡◌, refl}
use mathlib.Core.Logic.{◌⊎◌, inl, inr}

pub data Result {ℓ} (E : Type 0) (A : Type ℓ) : Type ℓ where
  err : E → Result E A
  ok : A → Result E A

-- A result `(v, ok)` whose `!ok` is answered by an error.
abbrev pub or_error {ℓ} : {E : Type 0} {A : Type ℓ} → Option A → E → Result E A
or_error none reason = err reason
or_error (some found) reason = ok found

infixl 5 ◌>>=◌
abbrev pub ◌>>=◌ {ℓ κ} :
    {E : Type 0} {A : Type ℓ} {B : Type κ} → Result E A → (A → Result E B) → Result E B
err reason >>= next = err reason
ok value >>= next = next value

-- An early return: the error where the test holds.
abbrev pub fail_if : {E : Type 0} → Bool → E → Result E (Unit {0})
fail_if test reason = elim test [ true ↦ err reason | false ↦ ok tt ]

infixl 5 ◌>>◌
abbrev pub ◌>>◌ {ℓ κ} :
    {E : Type 0} {A : Type ℓ} {B : Type κ} → Result E A → Result E B → Result E B
first >> second = first >>= λ ignored. second

pub >>=-eq-ok {ℓ κ} :
    {E : Type 0} {A : Type ℓ} {B : Type κ} {last : B} (first : Result E A) (next : A → Result E B)
    → (first >>= next) ≡ ok last
    → (value : A) × (first ≡ ok value) × (next value ≡ ok last)
>>=-eq-ok (err reason) next done = cc
>>=-eq-ok (ok value) next done = (value, refl, done)

pub or_error-eq-ok {ℓ} :
    {E : Type 0} {A : Type ℓ} (o : Option A) (e : E) {a : A} → or_error o e ≡ ok a → o ≡ some a
or_error-eq-ok none e h = cc
or_error-eq-ok (some a) e h = cc

pub fail_if-eq-ok : {E : Type 0} (b : Bool) (e : E) {u : Unit {0}} → fail_if b e ≡ ok u → b ≡ false
fail_if-eq-ok true e h = cc
fail_if-eq-ok false e h = refl

-- The same as rules: to use that a block succeeded, go on from its first step.
pub >>=-elim {ℓ κ μ} :
    {E : Type 0} {A : Type ℓ} {B : Type κ} {P : Type μ} (m : Result E A) (f : A → Result E B)
    {b : B}
    → (m >>= f) ≡ ok b
    → ((a : A) → m ≡ ok a → f a ≡ ok b → P)
    → P
>>=-elim m f h use_parts = let (a, e, k) = >>=-eq-ok m f h in use_parts a e k

pub or_error-elim {ℓ κ μ} :
    {E : Type 0} {A : Type ℓ} {B : Type κ} {P : Type μ} (o : Option A) (e : E) (f : A → Result E B)
    {b : B}
    → (or_error o e >>= f) ≡ ok b
    → ((a : A) → o ≡ some a → f a ≡ ok b → P)
    → P
or_error-elim o e f h use_parts =
    >>=-elim (or_error o e) f h (λ a q k. use_parts a (or_error-eq-ok o e q) k)

pub fail_if-elim {κ μ} :
    {E : Type 0} {B : Type κ} {P : Type μ} (t : Bool) (e : E) (k : Result E B) {b : B}
    → (fail_if t e >> k) ≡ ok b
    → (t ≡ false → k ≡ ok b → P)
    → P
fail_if-elim true e k h use_parts = absurd (cc)
fail_if-elim false e k h use_parts = use_parts refl h

pub ok_inj {ℓ} : {E : Type 0} {A : Type ℓ} {a b : A} → ◌≡◌ {A = Result E A} (ok a) (ok b) → a ≡ b
ok_inj h = cc

pub Result-cases {ℓ} :
    {E : Type 0} {A : Type ℓ} (r : Result E A) → ((e : E) × (r ≡ err e)) ⊎ ((a : A) × (r ≡ ok a))
Result-cases (err e) = inl (e, refl)
Result-cases (ok a) = inr (a, refl)
