-- ===== src/Types/Map.antt =====
-- src/types.rs: `TdfMap`, an association list that may hold a key more than once.
pub mod Lookup
pub mod Extend
pub mod Sort
pub mod Wire
pub mod Views
use blaze_pk_rs.Prelude.{
  ℕ, zero, suc, List, [], ◌∷◌, ◌++◌, map, Option, none, some, Bool, ◌==◌, if◌then◌else◌, length,
  get_elem?, leb,
}
use blaze_pk_rs.Prelude.Classes.{Eq, Ord}
use blaze_pk_rs.Types.Lists.{remove_at}

pub record MapEntry (K V : Type 0) : Type 0 where
  pub key : K
  pub value : V

pub record TdfMap (K V : Type 0) : Type 0 where
  pub entries : List (MapEntry K V)

-- The last element of a vector, and the others.
unfoldable pub pop_last : {A : Type 0} → List A → Option (A × List A)
pop_last [] = none
pop_last (x ∷ xs) = elim (pop_last xs) [ none ↦ some (x, []) | some (y, ys) ↦ some (y, x ∷ ys) ]

module _ {K V : Type 0} where
  unfoldable pub new : TdfMap K V
  new = record { entries = [] }

  unfoldable pub len : TdfMap K V → ℕ
  len self = length self.entries

  unfoldable pub is_empty : TdfMap K V → Bool
  is_empty self = length self.entries == 0

  unfoldable pub index : TdfMap K V → ℕ → Option (K × V)
  index self i = elim (get_elem? self.entries i) [
    | some entry ↦ some (entry.key, entry.value)
    | none ↦ none
  ]

  unfoldable pub insert : K → V → TdfMap K V → TdfMap K V
  insert key value self = record {
    entries = self.entries ++ record { key = key; value = value } ∷ [];
  }

  -- With the map as it leaves it.
  unfoldable pub pop : TdfMap K V → Option (K × V) × TdfMap K V
  unfolding pop_last
  pop self = elim (pop_last self.entries) [
    | some (entry, rest) ↦ (some (entry.key, entry.value), record { entries = rest })
    | none ↦ (none, self)
  ]

  unfoldable pub clear : TdfMap K V → TdfMap K V
  clear self = record { entries = [] }

  -- `from_iter`, and the loop of `From<HashMap>`.
  unfoldable pub from_iter : List (K × V) → TdfMap K V
  from_iter iter = record {
    entries = map (λ (key, value). record { key = key; value = value }) iter;
  }

  -- `into_iter`, and what `iter` yields.
  unfoldable pub into_iter : TdfMap K V → List (K × V)
  into_iter self = map (λ entry. (entry.key, entry.value)) self.entries

  module _ ⦃e : Eq K⦄ where
    unfoldable pub position : K → List (MapEntry K V) → Option ℕ
    position key [] = none
    position key (entry ∷ rest) =
        let later = position key rest in
        if e.eq entry.key key then some 0 else elim later [ some i ↦ some (suc i) | none ↦ none ]

    -- The loop of `index_of_key`, and `Iterator::position` in `extend`.
    unfoldable pub index_of_key : TdfMap K V → K → Option ℕ
    unfolding position
    index_of_key self key = position key self.entries

    -- `self.entries[index].value = value`
    unfoldable pub set_value : ℕ → V → List (MapEntry K V) → List (MapEntry K V)
    set_value i value [] = []
    set_value zero value (entry ∷ rest) = record { key = entry.key; value = value } ∷ rest
    set_value (suc i) value (entry ∷ rest) = entry ∷ set_value i value rest

    -- One round of the loop of `extend`.
    unfoldable pub extend_entry : MapEntry K V → TdfMap K V → TdfMap K V
    unfolding index_of_key set_value insert
    extend_entry entry self = elim (index_of_key self entry.key) [
      | some i ↦ record { entries = set_value i entry.value self.entries }
      | none ↦ insert entry.key entry.value self
    ]

    unfoldable pub extend_entries : List (MapEntry K V) → TdfMap K V → TdfMap K V
    unfolding extend_entry
    extend_entries [] self = self
    extend_entries (entry ∷ rest) self = extend_entries rest (extend_entry entry self)

    unfoldable pub extend : TdfMap K V → TdfMap K V → TdfMap K V
    unfolding extend_entries
    extend self other = extend_entries other.entries self

    unfoldable pub value_at : TdfMap K V → Option ℕ → Option V
    value_at self (some i) = elim (get_elem? self.entries i) [
      | some entry ↦ some entry.value
      | none ↦ none
    ]
    value_at self none = none

    -- `get`, and the value that `get_mut` lends.
    unfoldable pub get : TdfMap K V → K → Option V
    unfolding value_at index_of_key
    get self key = value_at self (index_of_key self key)

    -- The entry at an index, and the map without it.
    unfoldable pub take_entry : TdfMap K V → Option ℕ → Option (K × V) × TdfMap K V
    unfolding remove_at
    take_entry self (some i) = (
      elim (get_elem? self.entries i) [ some entry ↦ some (entry.key, entry.value) | none ↦ none ],
      record { entries = remove_at i self.entries },
    )
    take_entry self none = (none, self)

    unfoldable pub remove : TdfMap K V → K → Option (K × V) × TdfMap K V
    unfolding take_entry index_of_key
    remove self key = take_entry self (index_of_key self key)

    -- The value of the entry at an index, and the map without that entry.
    unfoldable pub owned_at : TdfMap K V → Option ℕ → Option V × TdfMap K V
    unfolding remove_at
    owned_at self (some i) = (
      elim (get_elem? self.entries i) [ some entry ↦ some entry.value | none ↦ none ],
      record { entries = remove_at i self.entries },
    )
    owned_at self none = (none, self)

    -- `get_owned`, with the map as it leaves it.
    unfoldable pub get_owned : TdfMap K V → K → Option V × TdfMap K V
    unfolding owned_at index_of_key
    get_owned self key = owned_at self (index_of_key self key)

  module _ ⦃o : Ord K⦄ where
    -- `sort_by`, which is stable: equal keys keep their order.
    unfoldable pub insert_sorted : MapEntry K V → List (MapEntry K V) → List (MapEntry K V)
    insert_sorted entry [] = entry ∷ []
    insert_sorted entry (x ∷ xs) =
        let rest = insert_sorted entry xs in
        if o.le entry.key x.key then entry ∷ x ∷ xs else x ∷ rest

    unfoldable pub sort_by_key : List (MapEntry K V) → List (MapEntry K V)
    unfolding insert_sorted
    sort_by_key [] = []
    sort_by_key (x ∷ xs) = insert_sorted x (sort_by_key xs)

    unfoldable pub order : TdfMap K V → TdfMap K V
    unfolding sort_by_key
    order self =
        if leb (length self.entries) 1 then self else record { entries = sort_by_key self.entries }
