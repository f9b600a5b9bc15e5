-- ===== src/Ring.antt =====
-- list.c: circular lists through pointers in both directions. A node is its address, and `none` is
-- `NULL`. An operation that would follow a null pointer gives `none`.
pub mod Chain
pub mod Refines
pub mod Removed
use libliftoff.Prelude.{
  ℕ, zero, suc, Bool, true, false, Option, none, some, ◌==◌, if◌then◌else◌, is_at,
}
use libliftoff.Model.{Ptr, update}

-- The `prev` and `next` pointers of all nodes.
pub record Ring : Type 0 where
  pub prev : Ptr → Option Ptr
  pub next : Ptr → Option Ptr

abbrev pub set_prev : Ring → Ptr → Option Ptr → Ring
set_prev r a b = record r { prev = update r.prev a b }

abbrev pub set_next : Ring → Ptr → Option Ptr → Ring
set_next r a b = record r { next = update r.next a b }

-- `liftoff_list_init`
unfoldable pub list_init : Ring → Ptr → Ring
list_init r list = set_next (set_prev r list (some list)) list (some list)

-- `elm->next->prev = elm`
abbrev pub link_back : Ring → Ptr → Option Ptr → Option Ring
link_back r elm none = none
link_back r elm (some n) = some (set_prev r n (some elm))

-- `liftoff_list_insert`
unfoldable pub list_insert : Ring → (list elm : Ptr) → Option Ring
list_insert r list elm =
    let r1 = set_prev r elm (some list) in
    let r2 = set_next r1 elm (r1.next list) in
    let r3 = set_next r2 list (some elm) in link_back r3 elm (r3.next elm)

-- `elm->prev->next = elm->next`
abbrev pub skip_forth : Ring → Ptr → Option Ptr → Option Ring
skip_forth r elm none = none
skip_forth r elm (some p) = some (set_next r p (r.next elm))

-- `elm->next->prev = elm->prev`, and the two pointers of the element set to `NULL`
abbrev pub skip_back : Ring → Ptr → Option Ptr → Option Ring
skip_back r elm none = none
skip_back r elm (some n) = some (set_prev (set_next (set_prev r n (r.prev elm)) elm none) elm none)

abbrev pub then_skip_back : Ptr → Option Ring → Option Ring
then_skip_back elm none = none
then_skip_back elm (some r) = skip_back r elm (r.next elm)

-- `liftoff_list_remove`
unfoldable pub list_remove : Ring → Ptr → Option Ring
list_remove r elm = then_skip_back elm (skip_forth r elm (r.prev elm))

-- The loop of `liftoff_list_length` from the node `e` on, `fuel` times at most.
unfoldable pub count_from : Ring → (fuel : ℕ) → (list : Ptr) → Option Ptr → ℕ → Option ℕ
count_from r zero list e count = none
count_from r (suc fuel) list none count = none
count_from r (suc fuel) list (some e) count =
    if e == list then some count else count_from r fuel list (r.next e) (suc count)

-- `liftoff_list_length`
unfoldable pub list_length : Ring → (fuel : ℕ) → Ptr → Option ℕ
unfolding count_from
list_length r fuel list = count_from r fuel list (r.next list) 0

-- `liftoff_list_empty`
unfoldable pub list_empty : Ring → Ptr → Bool
list_empty r list = is_at list (r.next list)
