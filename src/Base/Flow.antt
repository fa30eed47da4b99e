-- ===== src/Base/Flow.antt =====
-- Exceptions of the Python code as values, and the chain of calls that may raise.
use mathlib.Core.Path.{◌≡◌, refl, ap, ◌∙◌, subst}
use mathlib.Core.Bool.{Bool, true, false}
use mathlib.Core.List.{List}
use Prim.Native.Nat.{ℕ}

-- The exceptions that the modelled code raises or meets. A message is a list of code points.
pub data Exc : Type 0 where
  value_error : List ℕ → Exc
  -- a message that ends in the `repr` of a text
  value_error_repr : List ℕ → List ℕ → Exc
  type_error : Exc
  index_error : Exc
  key_error : List ℕ → Exc
  unbound_local : List ℕ → Exc
  os_error : Exc
  overflow_error : Exc

-- A call that returns a value or raises an exception.
pub data Result {ℓ} (V : Type ℓ) : Type ℓ where
  err : Exc → Result V
  ok : V → Result V

infixl 5 ◌>>=◌ ◌>>◌
abbrev pub ◌>>=◌ {ℓ} : {V W : Type ℓ} → Result V → (V → Result W) → Result W
err raised >>= next = err raised
ok v >>= next = next v

-- A chain that returned has run its first call to the end, and the rest on that call's value.
pub >>=-eq-ok {ℓ} :
    {V W : Type ℓ} (call : Result V) (next : V → Result W) {w : W}
    → (call >>= next) ≡ ok w
    → (v : V) × (call ≡ ok v) × (next v ≡ ok w)
>>=-eq-ok (err raised) next h = cc
>>=-eq-ok (ok v) next h = (v, refl, h)

abbrev pub ◌>>◌ : {W : Type 0} → Result (Unit {0}) → Result W → Result W
call >> next = call >>= λ _. next

-- `if not test: raise exc`
abbrev pub guard : Bool → Exc → Result (Unit {0})
guard false raised = err raised
guard true raised = ok tt

pub ok_inj {ℓ} : {A : Type ℓ} {a b : A} → ok a ≡ ok b → a ≡ b
ok_inj h = cc

-- Inversion of a guard that let the rest run.
pub guard-eq-ok :
    {A : Type 0} (b : Bool) (e : Exc) (m : Result A) {a : A}
    → (guard b e >> m) ≡ ok a
    → (b ≡ true) × (m ≡ ok a)
guard-eq-ok true e m h = (refl, h)
guard-eq-ok false e m h = cc

-- The call returns.
abbrev pub Returns : {A : Type 0} → Result A → Type 0
Returns {A} r = (a : A) × (r ≡ ok a) × Unit {0}

-- A call that returns, followed by a rest that returns, returns.
pub bind_total :
    {V W : Type 0} (P : W → Type 0) (call : Result V) (next : V → Result W) (v : V)
    → call ≡ ok v
    → ((w : W) × (next v ≡ ok w) × P w)
    → (w : W) × ((call >>= next) ≡ ok w) × P w
bind_total P (err raised) next v h total = cc
bind_total P (ok u) next v h (w, e, p) = (w, ap next (ok_inj h) ∙ e, p)

-- What holds of the value, if the call returns one.
abbrev pub Ensures {ℓ} : {A : Type 0} → (A → Type ℓ) → Result A → Type ℓ
Ensures {A = A} P r = (a : A) → r ≡ ok a → P a

pub ok-Ensures {ℓ} : {A : Type 0} (P : A → Type ℓ) {a : A} → P a → Ensures P (ok a)
ok-Ensures P p b e = subst P (ok_inj e) p

-- A chain ensures what its rest ensures of each value of the first call.
pub >>=-Ensures {ℓ} :
    {V W : Type 0} (P : W → Type ℓ) (call : Result V) (next : V → Result W)
    → ((v : V) → call ≡ ok v → Ensures P (next v))
    → Ensures P (call >>= next)
>>=-Ensures P call next h w e = let (v, c, n) = >>=-eq-ok call next e in h v c w n

-- The call returns, or raises a `ValueError`.
abbrev pub Refuses {ℓ} : {A : Type ℓ} → Result A → Type 0
Refuses (ok a) = Unit
Refuses (err (value_error m)) = Unit
Refuses (err (value_error_repr m t)) = Unit
Refuses (err e) = ⊥

pub >>=-Refuses {ℓ} :
    {V W : Type ℓ} (call : Result V) (next : V → Result W)
    → Refuses call
    → ((v : V) → Refuses (next v))
    → Refuses (call >>= next)
>>=-Refuses (ok v) next r rest = rest v
>>=-Refuses (err (value_error m)) next r rest = tt
>>=-Refuses (err (value_error_repr m t)) next r rest = tt
>>=-Refuses (err type_error) next r rest = absurd r
>>=-Refuses (err index_error) next r rest = absurd r
>>=-Refuses (err (key_error k)) next r rest = absurd r
>>=-Refuses (err (unbound_local k)) next r rest = absurd r
>>=-Refuses (err os_error) next r rest = absurd r
>>=-Refuses (err overflow_error) next r rest = absurd r

pub guard-Refuses : (b : Bool) (e : Exc) → Refuses {A = Unit {0}} (err e) → Refuses (guard b e)
guard-Refuses true e r = tt
guard-Refuses false e r = r
