-- ===== src/Exec.antt =====
-- Fallible methods that change a store. What was written before an error stays written, so the
-- store comes back beside the error too.
use common_data_layer.Prelude.{◌⊎◌, inl, inr, ◌≡◌, refl, List, [], ◌∷◌, Option, none, some}

pub data Result (E A : Type 0) : Type 0 where
  ok : A → Result E A
  err : E → Result E A

pub ok-injective : {E A : Type 0} {a b : A} → ◌≡◌ {A = Result E A} (ok a) (ok b) → a ≡ b
ok-injective h = cc

abbrev pub map_err : {E F A : Type 0} → (E → F) → Result E A → Result F A
map_err f (ok a) = ok a
map_err f (err e) = err (f e)

-- `ok_or`
abbrev pub ok_or : {E A : Type 0} → Option A → E → Result E A
ok_or none e = err e
ok_or (some a) e = ok a

-- `into_iter().next()`
abbrev pub first : {A : Type 0} → List A → Option A
first [] = none
first (x ∷ xs) = some x

abbrev pub Exec : Type 0 → Type 0 → Type 0 → Type 0
Exec S E A = S → Result E A × S

module _ {S E A : Type 0} where
  abbrev pub pure : A → Exec S E A
  pure a s = (ok a, s)

  abbrev pub raise : E → Exec S E A
  raise e s = (err e, s)

  abbrev pub lift : Result E A → Exec S E A
  lift r s = (r, s)

  -- An operation that only reads.
  abbrev pub reading : (S → Result E A) → Exec S E A
  reading f s = (f s, s)

module _ {S E A B : Type 0} where
  abbrev pub continue : Result E A → (A → Exec S E B) → Exec S E B
  continue (ok a) f s = f a s
  continue (err e) f s = (err e, s)

  infixl 10 ◌>>=◌ ◌>>◌
  abbrev pub ◌>>=◌ : Exec S E A → (A → Exec S E B) → Exec S E B
  ◌>>=◌ m f s = let (r, s') = m s in continue r f s'

  abbrev pub ◌>>◌ : Exec S E A → Exec S E B → Exec S E B
  m >> n = m >>= λ _. n

abbrev pub when_some : {S E A : Type 0} → Option A → (A → Exec S E (Unit {0})) → Exec S E (Unit {0})
when_some none f s = (ok tt, s)
when_some (some a) f s = f a s

-- A sequence that succeeds is a first part that succeeds and a rest that does.
pub continue-ok :
    {S E A B : Type 0} (r : Result E A) (f : A → Exec S E B) (s : S) (b : B)
    → (continue r f s).0 ≡ ok b
    → (a : A) × (r ≡ ok a) × ((f a s).0 ≡ ok b)
continue-ok (ok a) f s b h = (a, refl, h)
continue-ok (err e) f s b h = cc

-- How a task ends without a result: `process::abort`, or an error that a caller can handle.
pub data Fault (E : Type 0) : Type 0 where
  aborts : Fault E
  fails : E → Fault E

abbrev pub map_fault : {E F : Type 0} → (E → F) → Fault E → Fault F
map_fault f aborts = aborts
map_fault f (fails e) = fails (f e)

-- `map_err` on a part that changes the store.
abbrev pub exec_map_err : {S E F A : Type 0} → (E → F) → Exec S (Fault E) A → Exec S (Fault F) A
exec_map_err f m s = let (r, s') = m s in (map_err (map_fault f) r, s')

module _ {S E : Type 0} where
  abbrev pub attempted : {A : Type 0} → Result (Fault E) A → S → Result (Fault E) (Result E A) × S
  attempted (ok a) s = (ok (ok a), s)
  attempted (err (fails e)) s = (ok (err e), s)
  attempted (err aborts) s = (err aborts, s)

  -- The result of a part, its error included, for a caller that handles it.
  abbrev pub attempt : {A : Type 0} → Exec S (Fault E) A → Exec S (Fault E) (Result E A)
  attempt m s = let (r, s') = m s in attempted r s'

pub Result-cases :
    {E A : Type 0} (r : Result E A) → ((a : A) × (r ≡ ok a)) ⊎ ((e : E) × (r ≡ err e))
Result-cases (ok a) = inl (a, refl)
Result-cases (err e) = inr (e, refl)
