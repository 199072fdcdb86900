-- ===== src/Shrinker/Paths.antt =====
-- What a reader finds at a path of a merged document (`merge` of
-- crates/db-shrinker-postgres/src/main.rs): the last version that wrote there wins.
use mathlib.Core.Path.{subst}
use mathlib.Core.Bool.{false≢true}
use common_data_layer.Prelude.{
  ◌≡◌, refl, sym, Bool, true, false, Option, none, some, List, [], ◌∷◌, arith, str_eq, str_eq_iff,
  String, Option-cases, Bool-cases, inl, inr,
}
use common_data_layer.Json.{
  Value, Fields, null, bool, number, string, array, object, end, field, lookup, insert, Distinct,
  WellFormed, AllFields, lookup-insert,
}
use common_data_layer.Shrinker.{merge, merge_fields, or_null}

-- The value below `v` at a path of keys.
unfoldable pub get : List String → Value → Option Value
get [] v = some v
get (k ∷ p) (object m) = elim (lookup k m) [ none ↦ none | some v ↦ get p v ]
get (k ∷ p) v = none

-- `v` replaces whatever stood at the path before.
unfoldable pub writes : List String → Value → Bool
writes [] (object m) = false
writes (k ∷ p) (object m) = elim (lookup k m) [ none ↦ false | some v ↦ writes p v ]
writes p v = true

-- The field that a merge leaves, from the two that it finds.
abbrev merged : Option Value → Option Value → Option Value
merged u none = u
merged u (some v) = some (merge (or_null u) v)

lookup-merge_fields :
    (k : String) (a b : Fields)
    → Distinct b
    → lookup k (merge_fields a b) ≡ merged (lookup k a) (lookup k b)
unfolding merge_fields lookup
lookup-merge_fields k a end d = refl
lookup-merge_fields k a (field j v rest) d =
    let put : Fields = insert j (merge (or_null (lookup j a)) v) a in
    ground (
      arith,
      lookup-merge_fields k put rest d.1,
      lookup-insert j k (merge (or_null (lookup j a)) v) a,
      str_eq_iff j k,
    )

merge-null : (v : Value) → merge null v ≡ v
unfolding merge
merge-null null = refl
merge-null (bool b) = refl
merge-null (number n) = refl
merge-null (string s) = refl
merge-null (array xs) = refl
merge-null (object m) = refl

lookup-WellFormed :
    (k : String) (m : Fields) (v : Value) → AllFields m → lookup k m ≡ some v → WellFormed v
unfolding lookup
lookup-WellFormed k end v w e = cc
lookup-WellFormed k (field j u rest) v w e = elim (Bool-cases (str_eq j k)) [
  | inl hit ↦ subst WellFormed {x = u} {y = v} (ground arith) w.0
  | inr miss ↦ lookup-WellFormed k rest v w.1 (ground arith)
]

merge_object : (x y : Fields) → merge (object x) (object y) ≡ object (merge_fields x y)
unfolding merge
merge_object x y = refl

-- One step down a path, from what the key holds.
abbrev below : List String → Option Value → Option Value
below p none = none
below p (some v) = get p v

abbrev writes_below : List String → Option Value → Bool
writes_below p none = false
writes_below p (some v) = writes p v

get_object :
    (k : String) (p : List String) (m : Fields) → get (k ∷ p) (object m) ≡ below p (lookup k m)
unfolding get
get_object k p m = ground arith

writes_object :
    (k : String) (p : List String) (m : Fields)
    → writes (k ∷ p) (object m) ≡ writes_below p (lookup k m)
unfolding writes
writes_object k p m = ground arith

get-merged :
    (k : String) (p : List String) (x y : Fields)
    → Distinct y
    → get (k ∷ p) (merge (object x) (object y)) ≡ below p (merged (lookup k x) (lookup k y))
get-merged k p x y d =
    rw (merge_object x y, get_object k p (merge_fields x y), lookup-merge_fields k x y d)

-- Where the later version writes, the merge shows what the later version shows.
pub get-merge-writes :
    (p : List String) (a b : Value) → WellFormed b → writes p b ≡ true → get p (merge a b) ≡ get p b
get-merge-writes [] (object x) (object y) wf w = absurd (unfold writes in false≢true w)
get-merge-writes (k ∷ p) (object x) (object y) wf w = elim (Option-cases (lookup k y)) [
  | inl e ↦ absurd (false≢true (rw (writes_object k p y, e) at w))
  | inr (v, e) ↦
      rw (get-merged k p x y wf.0, get_object k p y, e)
        (get-merge-writes p (or_null (lookup k x)) v (lookup-WellFormed k y v wf.1 e)
          (rw (writes_object k p y, e) at w))
]
get-merge-writes p a b wf w = unfold merge in refl

-- Where the later version neither writes nor holds anything, the earlier value stays.
pub get-merge_keeps :
    (p : List String) (a b : Value)
    → WellFormed b
    → writes p b ≡ false
    → get p b ≡ none
    → get p (merge a b) ≡ get p a
get-merge_keeps [] a b wf w g = absurd (unfold get in cc g)
get-merge_keeps (k ∷ p) (object x) (object y) wf w g = elim (Option-cases (lookup k y)) [
  | inl e ↦ rw (get-merged k p x y wf.0, get_object k p x, e)
  | inr (v, e) ↦ elim (Option-cases (lookup k x)) [
    | inl f ↦
        rw (get-merged k p x y wf.0, get_object k p x, e, f)
          (rw (merge-null v) (rw (get_object k p y, e) at g))
    | inr (u, f) ↦
        rw (get-merged k p x y wf.0, get_object k p x, e, f)
          (get-merge_keeps p u v (lookup-WellFormed k y v wf.1 e) (rw (writes_object k p y, e) at w)
            (rw (get_object k p y, e) at g))
  ]
]
get-merge_keeps (k ∷ p) null (object y) wf w g = unfold merge in unfold get in g
get-merge_keeps (k ∷ p) (bool c) (object y) wf w g = unfold merge in unfold get in g
get-merge_keeps (k ∷ p) (number c) (object y) wf w g = unfold merge in unfold get in g
get-merge_keeps (k ∷ p) (string c) (object y) wf w g = unfold merge in unfold get in g
get-merge_keeps (k ∷ p) (array c) (object y) wf w g = unfold merge in unfold get in g
get-merge_keeps (k ∷ p) a b wf w g = absurd (unfold writes in false≢true (sym w))
