-- ===== src/Fallible.antt =====
-- Fallible code that changes no store: the `?` of Rust on a `Result`.
use common_data_layer.Prelude.{◌≡◌, refl, ◌↔◌, List, [], ◌∷◌, All}
use common_data_layer.Exec.{Result, ok, err}

module _ {E A B : Type 0} where
  abbrev pub and_then : Result E A → (A → Result E B) → Result E B
  and_then (ok a) f = f a
  and_then (err e) f = err e

  infixl 10 ◌>>=◌ ◌>>◌
  abbrev pub ◌>>=◌ : Result E A → (A → Result E B) → Result E B
  r >>= f = and_then r f

  abbrev pub ◌>>◌ : Result E A → Result E B → Result E B
  r >> q = and_then r (λ _. q)

  -- A sequence that succeeds is a first part that succeeds and a rest that does.
  pub and_then-ok :
      (r : Result E A) (f : A → Result E B) (b : B)
      → and_then r f ≡ ok b
      → (a : A) × (r ≡ ok a) × (f a ≡ ok b)
  and_then-ok (ok a) f b h = (a, refl, h)
  and_then-ok (err e) f b h = cc

-- `map` and `collect` into a `Result`: the first error is the result.
unfoldable pub collect_map : {E A B : Type 0} → (A → Result E B) → List A → Result E (List B)
collect_map f [] = ok []
collect_map f (x ∷ xs) = do y ← f x; ys ← collect_map f xs; ok (y ∷ ys)

-- A conversion of a list succeeds just when that of each element does.
pub collect_map-All :
    {E A B : Type 0} (f : A → Result E B) (xs : List A)
    → ((ys : List B) × (collect_map f xs ≡ ok ys)) ↔ All (λ x. (y : B) × (f x ≡ ok y)) xs
unfolding collect_map
collect_map-All f [] = (λ h. tt, λ h. ([], refl))
collect_map-All f (x ∷ xs) =
    let rest = collect_map-All f xs in
    (
      λ (ys, h).
          let (y, found, h₁) = and_then-ok (f x) _ ys h in
          let (zs, all, h₂) = and_then-ok (collect_map f xs) _ ys h₁ in
          ((y, found), rest.0 (zs, all)),
      λ ((y, found), others).
          let (zs, all) = rest.1 others in (y ∷ zs, rw (found, all, collect_map) refl),
    )
