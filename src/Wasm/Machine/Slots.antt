-- ===== src/Wasm/Machine/Slots.antt =====
-- The slots behind the handles of one class. A handle is the number of its slot, and a slot whose
-- value was dropped is empty; no slot is used twice.
use evnx_crypto.Base.{ℕ, zero, suc, List, [], ◌∷◌, ◌++◌, Option, none, some, ◌≡◌}

abbrev pub Slots : Type 0 → Type 0
Slots H = List (Option H)

abbrev pub get_slot : {H : Type 0} → ℕ → Slots H → Option H
get_slot i [] = none
get_slot zero (s ∷ r) = s
get_slot (suc i) (s ∷ r) = get_slot i r

abbrev pub free_slot : {H : Type 0} → ℕ → Slots H → Slots H
free_slot i [] = []
free_slot zero (s ∷ r) = none ∷ r
free_slot (suc i) (s ∷ r) = s ∷ free_slot i r

abbrev pub add_slot : {H : Type 0} → H → Slots H → Slots H
add_slot h slots = slots ++ (some h ∷ [])

-- Every value that a slot holds has the property.
abbrev pub AllSlots : {H : Type 0} → (H → Type 0) → Slots H → Type 0
AllSlots P [] = Unit {0}
AllSlots P (none ∷ r) = AllSlots P r
AllSlots P (some h ∷ r) = P h × AllSlots P r

module _ {H : Type 0} (P : H → Type 0) where
  pub get_slot-AllSlots :
      (i : ℕ) (slots : Slots H) (h : H) → AllSlots P slots → get_slot i slots ≡ some h → P h
  get_slot-AllSlots i [] h all e = cc
  get_slot-AllSlots zero (none ∷ r) h all e = cc
  get_slot-AllSlots zero (some k ∷ r) h all e = let same : k ≡ h = cc in rw (← same) all.0
  get_slot-AllSlots (suc i) (none ∷ r) h all e = get_slot-AllSlots i r h all e
  get_slot-AllSlots (suc i) (some k ∷ r) h all e = get_slot-AllSlots i r h all.1 e

  pub free_slot-AllSlots :
      (i : ℕ) (slots : Slots H) → AllSlots P slots → AllSlots P (free_slot i slots)
  free_slot-AllSlots i [] all = all
  free_slot-AllSlots zero (none ∷ r) all = all
  free_slot-AllSlots zero (some k ∷ r) all = all.1
  free_slot-AllSlots (suc i) (none ∷ r) all = free_slot-AllSlots i r all
  free_slot-AllSlots (suc i) (some k ∷ r) all = (all.0, free_slot-AllSlots i r all.1)

  pub add_slot-AllSlots :
      (h : H) (slots : Slots H) → AllSlots P slots → P h → AllSlots P (add_slot h slots)
  add_slot-AllSlots h [] all p = (p, tt)
  add_slot-AllSlots h (none ∷ r) all p = add_slot-AllSlots h r all p
  add_slot-AllSlots h (some k ∷ r) all p = (all.0, add_slot-AllSlots h r all.1 p)
