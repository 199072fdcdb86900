-- ===== src/Shrinker/Shrunk.antt =====
-- What crates/db-shrinker-postgres/src/main.rs leaves of an object that it shrank.
use common_data_layer.Prelude.{
  ℕ, String, ◌≡◌, refl, ap, ◌∙◌, ◌<◌, ◌≢◌, ◌⊎◌, ==_iff, Option, none, some, List, [], ◌∷◌, ◌==◌,
  ==_refl, leb, arith, if◌then◌else◌, All, inl, inr, Bool-cases, true, false,
}
use mathlib.Core.Path.{subst}
use mathlib.Core.Option.{some-injective, none-ne-some}
use common_data_layer.Json.{Value}
use common_data_layer.Exec.{ok, err, ok_or, Result-cases, ok-injective}
use common_data_layer.Fallible.{and_then-ok}
use common_data_layer.Shrinker.{Row, minimize_document}
use common_data_layer.Shrinker.Shrink.{Database, last, replace_rows, shrunk, shrink_by_id}

-- The rows that a deletion of the older ones leaves.
abbrev pub at_least : ℕ → List Row → List Row
at_least version [] = []
at_least version (r ∷ rows) =
    let rest = at_least version rows in if leb version r.version then r ∷ rest else rest

abbrev pub with_payload : Value → ℕ → Row → Row
with_payload document version r =
    if r.version == version then record r { payload = document } else r

abbrev pub set_payload : Value → ℕ → List Row → List Row
set_payload document version [] = []
set_payload document version (r ∷ rows) =
    with_payload document version r ∷ set_payload document version rows

-- The statements as SQL has them.
pub record IsDatabase {S : Type 0} (db : Database S) : Type 0 where
  pub rows : S → ℕ → List Row
  pub selected :
      (i : ℕ) (s : S) (found : List Row) → db.get_all_with_id i s ≡ ok found → found ≡ rows s i
  pub deleted :
      (i v j : ℕ) (s s' : S)
      → db.delete_older i v s ≡ ok s'
      → rows s' j ≡ (if j == i then at_least v (rows s j) else rows s j)
  pub updated :
      (d : Value) (i v j : ℕ) (s s' : S)
      → db.update d i v s ≡ ok s'
      → rows s' j ≡ (if j == i then set_payload d v (rows s j) else rows s j)

abbrev pub Ascending : List Row → Type 0
Ascending [] = Unit
Ascending (r ∷ rows) = All (λ q. r.version < q.version) rows × Ascending rows

last-All : (P : Row → Type 0) (rows : List Row) (r : Row) → All P rows → last rows ≡ some r → P r
last-All P [] r h e = absurd (none-ne-some r e)
last-All P (q ∷ []) r h e = subst P (some-injective q r e) h.0
last-All P (q ∷ p ∷ rows) r h e = last-All P (p ∷ rows) r h.1 e

leb_refl : (n : ℕ) → leb n n ≡ true
leb_refl n = ground arith

leb_older : (n m : ℕ) → n < m → leb m n ≡ false
leb_older n m h = ground arith

-- After the older rows are gone and the newest is replaced, one row is left.
only_newest :
    (d : Value) (rows : List Row) (r : Row)
    → Ascending rows
    → last rows ≡ some r
    → set_payload d r.version (at_least r.version rows) ≡ record r { payload = d } ∷ []
only_newest d [] r h e = cc
only_newest d (q ∷ []) r h e =
    subst
      (λ x. set_payload d x.version (at_least x.version (q ∷ [])) ≡ record x { payload = d } ∷ [])
      (some-injective q r e) (rw (leb_refl q.version, ==_refl q.version) refl)
only_newest d (q ∷ p ∷ rows) r h e =
    rw (leb_older q.version r.version (last-All (λ x. q.version < x.version) (p ∷ rows) r h.0 e))
      (only_newest d (p ∷ rows) r h.1 e)

module _ {S : Type 0} (db : Database S) (laws : IsDatabase db) where
  open laws use {rows, selected, deleted, updated}

  -- What a shrinking leaves: of the object its newest row, with the document that its rows make; and
  -- the rows of the other objects.
  pub record IsShrunk (i : ℕ) (s s' : S) : Type 0 where
    pub newest : Row
    pub document : Value
    pub is_newest : last (rows s i) ≡ some newest
    pub is_document : minimize_document (rows s i) ≡ some document
    pub one_row : rows s' i ≡ record newest { payload = document } ∷ []
    pub others : (j : ℕ) → j ≢ i → rows s' j ≡ rows s j

  ok_or-ok : {A : Type 0} (o : Option A) (e : String) (a : A) → ok_or o e ≡ ok a → o ≡ some a
  ok_or-ok none e a h = cc
  ok_or-ok (some b) e a h = cc

  replaced :
      (i v : ℕ) (d : Value) (s s' : S)
      → replace_rows db i v d s ≡ ok s'
      → (j : ℕ) → rows s' j ≡ (if j == i then set_payload d v (at_least v (rows s j)) else rows s j)
  unfolding replace_rows
  replaced i v d s s' h j =
      let (u, begun, h₁) = and_then-ok (db.transaction s) _ s' h in
      let (s₁, e₁, h₂) = and_then-ok (db.delete_older i v s) _ s' h₁ in
      let (s₂, e₂, h₃) = and_then-ok (db.update d i v s₁) _ s' h₂ in
      let (t, done, h₄) = and_then-ok (db.commit s₂) _ s' h₃ in
      let after_delete = deleted i v j s s₁ e₁ in
      let after_update = updated d i v j s₁ s₂ e₂ in
      subst (λ x. rows x j ≡ (if j == i then set_payload d v (at_least v (rows s j)) else rows s j))
        (ok-injective h₄)
        (elim (Bool-cases (j == i)) [
          | inl same ↦
              rw same ((rw same at after_update) ∙ ap (set_payload d v) (rw same at after_delete))
          | inr other ↦ rw other ((rw other at after_update) ∙ (rw other at after_delete))
        ])

  shrunk-IsShrunk :
      (i : ℕ) (s s' : S) → Ascending (rows s i) → shrunk db i s ≡ ok s' → IsShrunk i s s'
  unfolding shrunk
  shrunk-IsShrunk i s s' ascending h =
      let (found, f, h₁) = and_then-ok (db.get_all_with_id i s) _ s' h in
      let same = selected i s found f in
      let (newest, n, h₂) = and_then-ok (ok_or (last found) _) _ s' h₁ in
      let (document, d, h₃) = and_then-ok (ok_or (minimize_document found) _) _ s' h₂ in
      let all = replaced i newest.version document s s' h₃ in
      let is_newest = subst (λ x. last x ≡ some newest) same (ok_or-ok (last found) _ newest n) in
      record {
        newest = newest;
        document = document;
        is_newest = is_newest;
        is_document =
            subst (λ x. minimize_document x ≡ some document) same
              (ok_or-ok (minimize_document found) _ document d);
        one_row =
            (rw (==_refl i) at (all i))
            ∙ only_newest document (rows s i) newest ascending is_newest;
        others = λ j differs. elim (Bool-cases (j == i)) [
          | inl equal ↦ absurd (differs ((==_iff j i).0 equal))
          | inr other ↦ rw other at (all j)
        ];
      }

  -- In a database whose selection, deletion and update do what their SQL says, if the rows of an object
  -- have ascending versions, its shrinking either succeeds, and leaves of the object the newest version
  -- with the document that all its versions merge to and leaves the other objects as they were, or it
  -- fails and changes nothing.
  pub shrink_by_id-IsShrunk :
      (i : ℕ) (s : S)
      → Ascending (rows s i)
      → (((shrink_by_id db i s).0 ≡ ok tt) × IsShrunk i s (shrink_by_id db i s).1)
        ⊎ ((e : String) × (shrink_by_id db i s ≡ (err e, s)))
  unfolding shrink_by_id
  shrink_by_id-IsShrunk i s ascending = elim (Result-cases (shrunk db i s)) [
    | inl (s', e) ↦
        inl (rw (e, shrink_by_id) refl, rw (e, shrink_by_id) (shrunk-IsShrunk i s s' ascending e))
    | inr (r, e) ↦ inr (r, rw (e, shrink_by_id) refl)
  ]
