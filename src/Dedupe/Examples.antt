-- ===== src/Dedupe/Examples.antt =====
-- Tests of the deduper, and its theorems on concrete calls.
use herdr_pal.Prelude.{
  ℕ, ◌≡◌, ◌≢◌, ◌<◌, ◌+◌, ◌↔◌, refl, List, [], ◌∷◌, true, false, none, some, arith, ℕ_discrete,
}
use herdr_pal.Prelude.Maps.{lookup, insert, delete}
use herdr_pal.Prelude.Text.{Text, text_eq, Text-discrete, codes, trim_space, trim_left}
use herdr_pal.Dedupe.{Deduper, new_deduper, add_if_new, logical_now, remove_expired, register_key}
use herdr_pal.Dedupe.Laws.{IsWell, clock, fresh, add_if_new_iff}
use herdr_pal.Dedupe.Repeats.{run, add_if_new_repeated}
use herdr_pal.Dedupe.WellFormed.{empty_deduper, new_deduper-IsWell, add_if_new-IsWell}

abbrev message : Text
message = codes "m1"

abbrev start : Deduper
start = empty_deduper 10 2

made : new_deduper 10 2 ≡ some start
unfolding new_deduper ℕ_discrete
made = refl

start-IsWell : IsWell start
start-IsWell = new_deduper-IsWell 10 2 start made

abbrev other_calls : List (ℕ × Text)
other_calls = (7, codes "m2") ∷ []

taken : (add_if_new start 5 message).1 ≡ true
unfolding add_if_new logical_now remove_expired register_key trim_space trim_left lookup insert
    Text-discrete ℕ_discrete
taken = refl

in_time : clock (run (add_if_new start 5 message).0 other_calls) 14 < clock start 5 + start.ttl
unfolding run add_if_new logical_now remove_expired register_key trim_space trim_left lookup insert
    delete Text-discrete ℕ_discrete
in_time = omega arith

add_if_new_iff_example :
    ((add_if_new start 5 message).1 ≡ true)
    ↔ ((trim_space message ≢ []) × (lookup message (fresh (clock start 5) start.entries) ≡ none))
add_if_new_iff_example = add_if_new_iff start 5 message start-IsWell

add_if_new-IsWell_example : IsWell (add_if_new start 5 message).0
add_if_new-IsWell_example = add_if_new-IsWell start 5 message start-IsWell

add_if_new_repeated_example :
    (add_if_new (run (add_if_new start 5 message).0 other_calls) 14 message).1 ≡ false
add_if_new_repeated_example =
    add_if_new_repeated start 5 14 message other_calls start-IsWell taken (omega arith) in_time
