-- ===== src/TaskQueue/Tests.antt =====
-- Three tasks ask for one key and the second gives up: the theorems on the queue of permits there.
use common_data_layer.Prelude.{
  ℕ, ◌<◌, All, ◌≡◌, refl, ◌↔◌, inl, true, Option, none, some, [], ◌∷◌, ◌==◌, if◌then◌else◌,
}
use common_data_layer.TaskQueue.{
  set, add_task, acquire, Locks, drop_guard, System, start, acquired, asks, cancels, Steps, done,
  next,
}
use common_data_layer.TaskQueue.Exclusion.{Held, acquire_exclusive, drop_guard_total}
use common_data_layer.TaskQueue.Order.{drop_guard_first, acquire_lost}

abbrev cancelled : ℕ → System → System
cancelled r s = record s { dropped = λ j. if j == r then true else s.dropped j }

abbrev one : System
one = acquired "a" start

abbrev three : System
three = acquired "a" (acquired "a" one)

three_reached : Steps start three
three_reached =
    next (next (next done (asks start "a")) (asks one "a")) (asks (acquired "a" one) "a")

acquire_exclusive_example : Held (three.locks "a") (three.granted "a")
acquire_exclusive_example = acquire_exclusive three "a" three_reached

drop_guard_total_example :
    (d : Locks × Option ℕ) × (drop_guard three.dropped "a" three.locks ≡ some d)
    × ((d.0 "a" ≡ none) ↔ (d.1 ≡ none))
unfolding acquire add_task
drop_guard_total_example = drop_guard_total three "a" 0 three_reached (inl refl)

drop_guard_first_example :
    (drop_guard three.dropped "a" three.locks
      ≡ some (set "a" (some (record { is_blocked = true; queue = 2 ∷ [] })) three.locks, some 1))
    × All (λ later. 1 < later) (2 ∷ [])
unfolding acquire add_task
drop_guard_first_example =
    drop_guard_first three "a" 0 1 (record { is_blocked = true; queue = 1 ∷ 2 ∷ [] }) [] (2 ∷ [])
      three_reached (inl refl) refl refl tt refl

acquire_lost_example : (acquired "a" (cancelled 0 one)).granted "a" ≡ 0 ∷ []
unfolding acquire add_task
acquire_lost_example =
    acquire_lost (cancelled 0 one) (acquired "a" (cancelled 0 one)) "a" 0
      (next (next done (asks start "a")) (cancels one 0)) (inl refl) refl
      (next done (asks (cancelled 0 one) "a"))
