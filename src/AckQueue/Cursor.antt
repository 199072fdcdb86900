-- ===== src/AckQueue/Cursor.antt =====
-- The loop of `ack` in crates/utils/src/messaging_system/kafka_ack_queue.rs.
use common_data_layer.Prelude.{
  ℕ, zero, suc, ◌+◌, ◌≤◌, ◌≡◌, refl, sym, ◌∙◌, ap, ◌≢◌, inl, inr, false, Option, none, some, List,
  [], ◌∷◌, ◌++◌, length, get_elem?, length-append, All, Contains, arith, ◌==◌, Bool-cases,
  if◌then◌else◌,
}
use common_data_layer.AckQueue.{find_offset, move_next, current, is_at, remove_at}

-- A list without the first of its elements that is the offset.
abbrev pub remove_first : ℕ → List ℕ → List ℕ
remove_first o [] = []
remove_first o (w ∷ ws) = let rest = remove_first o ws in if w == o then ws else w ∷ rest

get_elem?-append : (pre suf : List ℕ) (s : ℕ) → get_elem? (pre ++ s ∷ suf) (length pre) ≡ some s
get_elem?-append [] suf s = refl
get_elem?-append (p ∷ pre) suf s = get_elem?-append pre suf s

remove_at-append : (pre suf : List ℕ) (s : ℕ) → remove_at (length pre) (pre ++ s ∷ suf) ≡ pre ++ suf
remove_at-append [] suf s = refl
remove_at-append (p ∷ pre) suf s = ap (λ xs. p ∷ xs) (remove_at-append pre suf s)

append_one : (pre suf : List ℕ) (s : ℕ) → (pre ++ s ∷ []) ++ suf ≡ pre ++ s ∷ suf
append_one [] suf s = refl
append_one (p ∷ pre) suf s = ap (λ xs. p ∷ xs) (append_one pre suf s)

length_one : (pre : List ℕ) (s : ℕ) → length (pre ++ s ∷ []) ≡ suc (length pre)
length_one [] s = refl
length_one (p ∷ pre) s = ap suc (length_one pre s)

move_next-append :
    (p : ℕ) (pre suf : List ℕ) (s : ℕ)
    → move_next ((p ∷ pre) ++ s ∷ suf) (some (length pre)) ≡ some (length (p ∷ pre))
move_next-append p pre suf s =
    let l : length (pre ++ s ∷ suf) ≡ length pre + suc (length suf) = length-append pre (s ∷ suf) in
    ground (arith, l)

-- From a place of the list on, the loop finds the first of the further elements that is the offset.
pub find_offset_found :
    (p : ℕ) (pre suf : List ℕ) (o turns : ℕ)
    → Contains o suf
    → length suf ≤ turns
    → (i : ℕ) × (find_offset turns ((p ∷ pre) ++ suf) o (some (length pre)) ≡ some i)
      × (remove_at i ((p ∷ pre) ++ suf) ≡ (p ∷ pre) ++ remove_first o suf)
unfolding find_offset
find_offset_found p pre [] o turns c le = absurd c
find_offset_found p pre (s ∷ suf) o zero c le = absurd (omega arith)
find_offset_found p pre (s ∷ suf) o (suc turns) c le = elim (Bool-cases (s == o)) [
  | inl here ↦ (
    length (p ∷ pre),
    rw (move_next-append p pre suf s, get_elem?-append (p ∷ pre) suf s, here) refl,
    rw here (remove_at-append (p ∷ pre) suf s),
  )
  | inr there ↦
      let c' : Contains o suf = elim c [ inl e ↦ absurd (ground arith) | inr later ↦ later ] in
      let r = find_offset_found p (pre ++ s ∷ []) suf o turns c' (omega arith) in
      let found : find_offset turns ((p ∷ pre) ++ s ∷ suf) o (some (length (p ∷ pre))) ≡ some r.0 =
        rw (append_one pre suf s, length_one pre s) at r.1 in
      let removed : remove_at r.0 ((p ∷ pre) ++ s ∷ suf) ≡ (p ∷ pre) ++ s ∷ remove_first o suf =
        ap (λ xs. remove_at r.0 (p ∷ xs)) (sym (append_one pre suf s))
        ∙ r.2
        ∙ ap (λ xs. p ∷ xs) (append_one pre (remove_first o suf) s) in
      (
        r.0,
        rw (move_next-append p pre suf s, get_elem?-append (p ∷ pre) suf s, there) found,
        rw there removed,
      )
]

is_at_nowhere : (ws : List ℕ) (o i : ℕ) → All (λ w. w ≢ o) ws → is_at o (get_elem? ws i) ≡ false
is_at_nowhere [] o i h = refl
is_at_nowhere (w ∷ ws) o zero h = ground (arith, h.0)
is_at_nowhere (w ∷ ws) o (suc i) h = is_at_nowhere ws o i h.1

is_at-current :
    (ws : List ℕ) (o : ℕ) (cursor : Option ℕ)
    → All (λ w. w ≢ o) ws
    → is_at o (current ws cursor) ≡ false
is_at-current ws o none h = refl
is_at-current ws o (some i) h = is_at_nowhere ws o i h

-- An offset that is not on the list is never found, however many turns the loop takes.
pub find_offset_endless :
    (turns : ℕ) (ws : List ℕ) (o : ℕ) (cursor : Option ℕ)
    → All (λ w. w ≢ o) ws
    → find_offset turns ws o cursor ≡ none
unfolding find_offset
find_offset_endless zero ws o cursor h = refl
find_offset_endless (suc turns) ws o cursor h =
    rw (is_at-current ws o (move_next ws cursor) h) (find_offset_endless turns ws o _ h)
