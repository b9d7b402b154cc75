-- ===== src/Types/Map/Views.antt =====
-- src/types.rs: how a `TdfMap` is walked, lent and shown, and how it is made of a `HashMap`. A
-- `HashMap` is the pairs that its own iterator yields, in whatever order that has.
use mathlib.Core.Path.{subst}
use mathlib.Core.List.{map-append}
use blaze_pk_rs.Prelude.{
  ℕ, ◌*◌, ◌^◌, ◌≡◌, refl, sym, ap, ◌∙◌, List, [], ◌∷◌, ◌++◌, append_assoc, append-nil, map, Option,
  none, some, ltb, if◌then◌else◌, get_elem?,
}
use blaze_pk_rs.Prelude.Classes.{Eq}
use blaze_pk_rs.Text.{Text, codes}
use blaze_pk_rs.Types.Map.{
  MapEntry, TdfMap, into_iter, position, index_of_key, set_value, value_at, get,
}
use blaze_pk_rs.Types.Map.Lookup.{first_value, get_lem}
use blaze_pk_rs.Types.Map.Extend.{round, first_value-round}

-- `MapEntryIter` and `OwnedMapEntryIter`: the entries that are still to come.
pub record MapEntryIter (K V : Type 0) : Type 0 where
  pub inner : List (MapEntry K V)

module _ {K V : Type 0} where
  -- `iter`, and both implementations of `into_iter`.
  unfoldable pub iter : TdfMap K V → MapEntryIter K V
  iter self = record { inner = self.entries }

  unfoldable pub next_entry : List (MapEntry K V) → Option (K × V) × MapEntryIter K V
  next_entry [] = (none, record { inner = [] })
  next_entry (entry ∷ rest) = (some (entry.key, entry.value), record { inner = rest })

  -- `Iterator::next`, with the iterator as it leaves it.
  unfoldable pub next : MapEntryIter K V → Option (K × V) × MapEntryIter K V
  unfolding next_entry
  next self = next_entry self.inner

  -- `TdfMap::with_capacity`; `none` is the panic for more than `isize::MAX` bytes.
  unfoldable pub with_capacity : ℕ → ℕ → Option (TdfMap K V)
  with_capacity size capacity =
      if ltb (capacity * size) (2 ^ 63) then some (record { entries = [] }) else none

  unfoldable pub clone_entry : (K → K) → (V → V) → MapEntry K V → MapEntry K V
  clone_entry k v self = record { key = k self.key; value = v self.value }

  -- `Clone`, from that of keys and of values.
  unfoldable pub clone : (K → K) → (V → V) → TdfMap K V → TdfMap K V
  unfolding clone_entry
  clone k v self = record { entries = map (clone_entry k v) self.entries }

  -- The loop of `From<HashMap>`.
  unfoldable pub push_each : List (K × V) → List (MapEntry K V) → List (MapEntry K V)
  push_each [] entries = entries
  push_each ((key, value) ∷ rest) entries =
      push_each rest (entries ++ record { key = key; value = value } ∷ [])

  unfoldable pub from_hash_map : List (K × V) → TdfMap K V
  unfolding push_each
  from_hash_map map = record { entries = push_each map [] }

  -- `Debug`, from that of keys and of values.
  unfoldable pub debug_entries : (K → Text) → (V → Text) → List (MapEntry K V) → Text
  debug_entries k v [] = []
  debug_entries k v (entry ∷ rest) =
      (codes "  " ++ (k entry.key ++ (codes ": " ++ (v entry.value ++ codes "\n"))))
      ++ debug_entries k v rest

  unfoldable pub debug : (K → Text) → (V → Text) → TdfMap K V → Text
  unfolding debug_entries
  debug k v self = codes "TdfMap {" ++ (debug_entries k v self.entries ++ codes "}")

  module _ ⦃e : Eq K⦄ where
    unfoldable pub lend_entry :
        TdfMap K V → ℕ → Option (MapEntry K V) → Option (V × (V → TdfMap K V))
    unfolding set_value
    lend_entry self i (some entry) =
        some (entry.value, λ value. record { entries = set_value i value self.entries })
    lend_entry self i none = none

    unfoldable pub lend : TdfMap K V → Option ℕ → Option (V × (V → TdfMap K V))
    unfolding lend_entry
    lend self (some i) = lend_entry self i (get_elem? self.entries i)
    lend self none = none

    -- `get_mut`: the value that is lent, and the map once another value is written there.
    unfoldable pub get_mut : TdfMap K V → K → Option (V × (V → TdfMap K V))
    unfolding lend index_of_key
    get_mut self key = lend self (index_of_key self key)

  -- All that an iterator yields.
  pub data Yields : MapEntryIter K V → List (K × V) → Type 0 where
    over : {it : MapEntryIter K V} → (next it).0 ≡ none → Yields it []
    yields :
        {it : MapEntryIter K V} {pair : K × V} {rest : List (K × V)}
        → (next it).0 ≡ some pair
        → Yields (next it).1 rest
        → Yields it (pair ∷ rest)

  Yields-entries :
      (entries : List (MapEntry K V))
      → Yields (record { inner = entries }) (into_iter (record { entries = entries }))
  unfolding next into_iter
  Yields-entries [] = over refl
  Yields-entries (entry ∷ rest) = yields refl (Yields-entries rest)

  push_each-into_iter :
      (xs : List (K × V)) (entries : List (MapEntry K V))
      → into_iter (record { entries = push_each xs entries })
        ≡ into_iter (record { entries = entries }) ++ xs
  unfolding push_each into_iter
  push_each-into_iter [] entries = sym (append-nil _)
  push_each-into_iter ((key, value) ∷ xs) entries =
      push_each-into_iter xs (entries ++ record { key = key; value = value } ∷ [])
      ∙ ap (λ ys. ys ++ xs)
          (map-append (λ (entry : MapEntry K V). (entry.key, entry.value)) entries
            (record { key = key; value = value } ∷ []))
      ∙ append_assoc (into_iter (record { entries = entries })) ((key, value) ∷ []) xs

  -- A map that is made of a `HashMap` yields the pairs of that, in the order in which that yields
  -- them, each once, and then no more.
  pub iter-from_hash_map : (xs : List (K × V)) → Yields (iter (from_hash_map xs)) xs
  unfolding iter from_hash_map into_iter
  iter-from_hash_map xs =
      subst (Yields (record { inner = push_each xs [] })) (push_each-into_iter xs [])
        (Yields-entries (push_each xs []))

  module _ ⦃e : Eq K⦄ (self : TdfMap K V) (key : K) where
    -- A value that is lent, and what writing to it does to lookups.
    pub record Lent (value : V) (put : V → TdfMap K V) : Type 0 where
      pub lends : get self key ≡ some value
      pub writes :
          (new : V) (k : K) → get (put new) k ≡ (if e.eq key k then some new else get self k)

    written :
        (i : ℕ)
        → position key self.entries ≡ some i
        → (new : V) (k : K)
        → get (record { entries = set_value i new self.entries }) k
          ≡ (if e.eq key k then some new else get self k)
    written i h new k =
        let entry : MapEntry K V = record { key = key; value = new } in
        get_lem (record { entries = set_value i new self.entries }) k
        ∙ ap (λ p. first_value k (round entry self.entries p)) (sym h)
        ∙ first_value-round entry k self.entries
        ∙ ap (λ v. if e.eq key k then some new else v) (sym (get_lem self k))

    -- What `get_mut` makes of a key: nothing if `get` finds none, and else a value to write to.
    pub data Lends : Option (V × (V → TdfMap K V)) → Type 0 where
      lends_nothing : get self key ≡ none → Lends none
      lends_value : {value : V} {put : V → TdfMap K V} → Lent value put → Lends (some (value, put))

    lend_entry-Lends :
        (i : ℕ) (found : Option (MapEntry K V))
        → position key self.entries ≡ some i
        → get_elem? self.entries i ≡ found
        → Lends (lend_entry self i found)
    unfolding get index_of_key value_at lend_entry
    lend_entry-Lends i none h g = lends_nothing (rw (h, value_at) (rw g refl))
    lend_entry-Lends i (some entry) h g =
        lends_value (record { lends = rw (h, value_at) (rw g refl); writes = written i h })

    lend-Lends : (p : Option ℕ) → position key self.entries ≡ p → Lends (lend self p)
    unfolding lend get index_of_key value_at
    lend-Lends none h = lends_nothing (rw h refl)
    lend-Lends (some i) h = lend_entry-Lends i (get_elem? self.entries i) h refl

    -- `get_mut` lends the value that `get` returns, or nothing if that returns nothing. Once another
    -- value is written to what is lent, lookups of the key return it, and lookups of every other
    -- key what they returned before.
    pub get_mut-Lends : Lends (get_mut self key)
    unfolding get_mut index_of_key
    get_mut-Lends = lend-Lends (position key self.entries) refl
