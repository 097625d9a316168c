-- ===== src/Builder/Safe.antt =====
-- Results that do not panic.
use okx_ord.Common.{ℕ, ◌+◌, ◌-◌, ◌≤◌, ◌≡◌, refl, Bool, true, leb, arith}
use okx_ord.Common.Outcome.{u64_max}
use okx_ord.Builder.State.{Built, panicked, failed, built, ◌>>=◌, assert, add, sub, Error}

-- No panic, errors only of some kind, and values of which a predicate holds.
abbrev pub Ends : {A : Type 0} → (Error → Type 0) → (A → Type 0) → Built A → Type 0
Ends F P panicked = ⊥
Ends F P (failed e) = F e
Ends F P (built a) = P a

-- Any error, or none.
abbrev pub Safe : {A : Type 0} → (A → Type 0) → Built A → Type 0
Safe P r = Ends (λ e. Unit) P r

abbrev pub Sure : {A : Type 0} → (A → Type 0) → Built A → Type 0
Sure P r = Ends (λ e. ⊥) P r

pub Sure-Safe : {A : Type 0} (P : A → Type 0) (r : Built A) → Sure P r → Safe P r
Sure-Safe P panicked h = h
Sure-Safe P (failed e) h = tt
Sure-Safe P (built a) h = h

pub Sure-bind :
    {A B : Type 0} (P : A → Type 0) (Q : B → Type 0) (r : Built A) (next : A → Built B)
    → Sure P r
    → ((a : A) → P a → Sure Q (next a))
    → Sure Q (r >>= next)
Sure-bind P Q panicked next h g = absurd h
Sure-bind P Q (failed e) next h g = absurd h
Sure-bind P Q (built a) next h g = g a h

pub Safe-bind :
    {A B : Type 0} (P : A → Type 0) (Q : B → Type 0) (r : Built A) (next : A → Built B)
    → Safe P r
    → ((a : A) → P a → Safe Q (next a))
    → Safe Q (r >>= next)
Safe-bind P Q panicked next h g = absurd h
Safe-bind P Q (failed e) next h g = tt
Safe-bind P Q (built a) next h g = g a h

-- A step that is known to succeed.
pub Safe-built :
    {A B : Type 0} (Q : B → Type 0) (r : Built A) (a : A) (next : A → Built B)
    → r ≡ built a
    → Safe Q (next a)
    → Safe Q (r >>= next)
Safe-built Q r a next e h = rw e h

pub then_built :
    {A B : Type 0} (r : Built A) (a : A) (next : A → Built B) (x : Built B)
    → r ≡ built a
    → next a ≡ x
    → (r >>= next) ≡ x
then_built r a next x e h = rw e h

pub assert-built : (test : Bool) → test ≡ true → assert test ≡ built tt
assert-built test h = rw h refl

pub add-built : (a b : ℕ) → a + b ≤ u64_max → add a b ≡ built (a + b)
add-built a b h = let t : leb (a + b) u64_max ≡ true = ground (arith, h) in rw t refl

pub sub-built : (a b : ℕ) → b ≤ a → sub a b ≡ built (a - b)
sub-built a b h = let t : leb b a ≡ true = ground (arith, h) in rw t refl
