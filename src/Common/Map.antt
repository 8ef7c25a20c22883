-- ===== src/Common/Map.antt =====
-- redshow/include/common/map.h and set.h: `Map`, a `std::map` with `prev` and `has`.
-- The entries stand in the order of their keys, each key once; an iterator is the entry at it, and
-- `end()` is `none`.
pub mod Laws
pub mod Prev
pub mod Change
pub mod Fresh
pub mod Entries
use ten_prof.Prelude.{
  ℕ, suc, ◌≤◌, Bool, true, false, Option, none, some, List, [], ◌∷◌, ltb, leb, ◌==◌, if◌then◌else◌,
}

-- `operator<` of a key type, by the number that it compares.
pub record Key {ℓ} (K : Type ℓ) : Type ℓ where
  pub rank : K → ℕ

instance abbrev pub u64_key : Key ℕ
u64_key = record { rank = λ k. k }

abbrev pub Map {ℓ κ} : Type ℓ → Type κ → Type (ℓ ⊔ κ)
Map K V = List (K × V)

module _ {ℓ κ} {K : Type ℓ} {V : Type κ} ⦃key : Key K⦄ where
  -- `find`: the entry's value.
  unfoldable pub find : K → Map K V → Option V
  find k [] = none
  find k ((j, w) ∷ m) = if key.rank k == key.rank j then some w else find k m

  unfoldable pub has : K → Map K V → Bool
  has k [] = false
  has k ((j, w) ∷ m) = if key.rank k == key.rank j then true else has k m

  -- `m[k] = v`: an entry that is there keeps its key.
  unfoldable pub assign : K → V → Map K V → Map K V
  assign k v [] = (k, v) ∷ []
  assign k v ((j, w) ∷ m) =
      if key.rank k == key.rank j
      then (j, v) ∷ m
      else if ltb (key.rank k) (key.rank j)
      then (k, v) ∷ (j, w) ∷ m
      else (j, w) ∷ assign k v m

  -- `m.emplace(k, v)` and `m.try_emplace(k, v)`: an entry that is there stays.
  unfoldable pub try_emplace : K → V → Map K V → Map K V
  unfolding has assign
  try_emplace k v m = if has k m then m else assign k v m

  -- `m.erase(k)`.
  unfoldable pub erase : K → Map K V → Map K V
  erase k [] = []
  erase k ((j, w) ∷ m) = if key.rank k == key.rank j then m else (j, w) ∷ erase k m

  -- `upper_bound(k)` and one step back: `last` is the entry behind the iterator.
  unfoldable pub prev_from : Option (K × V) → K → Map K V → Option (K × V)
  prev_from last k [] = last
  prev_from last k ((j, w) ∷ m) =
      let rest = prev_from (some (j, w)) k m in if ltb (key.rank k) (key.rank j) then last else rest

  unfoldable pub prev : K → Map K V → Option (K × V)
  unfolding prev_from
  prev k m = prev_from none k m

  -- The keys rise, and none is below `lo`.
  abbrev pub IsSortedFrom : ℕ → Map K V → Type 0
  IsSortedFrom lo [] = Unit
  IsSortedFrom lo ((j, w) ∷ m) = (lo ≤ key.rank j) × IsSortedFrom (suc (key.rank j)) m

  abbrev pub IsSorted : Map K V → Type 0
  IsSorted m = IsSortedFrom 0 m
