-- ===== src/Tests/Ring.antt =====
-- A ring of two nodes around the address 1, and one of the messages that reach a handler.
use libliftoff.Prelude.{◌≡◌, refl, ◌↔◌, true, List, [], ◌∷◌, none, some, arith, if◌then◌else◌, ◌==◌}
use libliftoff.Ring.{Ring, list_insert, list_remove, list_length, list_empty}
use libliftoff.Ring.Chain.{IsRing}
use libliftoff.Ring.Refines.{list_insert-after}
use libliftoff.Ring.Removed.{list_remove-after, length_and_empty}
use libliftoff.Log.{custom, initial, debug, log, log_set_handler, log_set_priority}
use libliftoff.Prelude.{ℕ}

-- 1 ⇄ 2 ⇄ 3 ⇄ 1
abbrev two : Ring
two = record {
  prev = λ p. if p == 1 then some 3 else if p == 2 then some 1 else if p == 3 then some 2 else none;
  next = λ p. if p == 1 then some 2 else if p == 2 then some 3 else if p == 3 then some 1 else none;
}

two-IsRing : IsRing two 1 (2 ∷ 3 ∷ [])
two-IsRing = record {
  chain = (refl, refl, (refl, refl, (refl, refl)));
  unique = (refl, (refl, (refl, tt)));
}

list_insert-after_example :
    (r' : Ring) × (list_insert two 3 4 ≡ some r') × IsRing r' 1 (2 ∷ 3 ∷ 4 ∷ [])
list_insert-after_example = list_insert-after two 1 4 (2 ∷ []) 3 [] two-IsRing refl

list_remove-after_example : (r' : Ring) × (list_remove two 3 ≡ some r') × IsRing r' 1 (2 ∷ [])
list_remove-after_example = list_remove-after two 1 3 [] 2 [] two-IsRing

length_and_empty_example :
    (list_length two 3 1 ≡ some 2) × ((list_empty two 1 ≡ true) ↔ ◌≡◌ {A = List ℕ} (2 ∷ 3 ∷ []) [])
length_and_empty_example = length_and_empty two 1 (2 ∷ 3 ∷ []) 3 two-IsRing (omega arith)

abbrev message : ℕ
message = 100

-- A message of the level that was set reaches the handler, one behind it does not.
logged :
    (log (log_set_handler (log_set_priority (initial {H = ℕ}) debug) (some 7)) debug message
      ≡ some (custom 7, debug, message))
    × (log (log_set_handler (log_set_priority (initial {H = ℕ}) debug) (some 7)) 9 message ≡ none)
unfolding log log_set_handler log_set_priority
logged = (refl, refl)
