-- ===== src/Types/Map/Lookup.antt =====
-- The abstract view of a `TdfMap`: the value that stands first under a key. What lookups return,
-- and what inserting and removing do to them.
use mathlib.Core.Path.{subst}
use mathlib.Core.List.{map-append}
use blaze_pk_rs.Prelude.{
  ℕ, suc, ◌≡◌, refl, sym, ap, ◌∙◌, List, [], ◌∷◌, ◌++◌, Option, none, some, false, if◌then◌else◌,
  inl, inr, Bool-cases, All, true, get_elem?,
}
use blaze_pk_rs.Prelude.Classes.{Eq}
use blaze_pk_rs.Types.Lists.{remove_at}
use blaze_pk_rs.Types.Map.{
  MapEntry, TdfMap, insert, position, index_of_key, value_at, get, take_entry, remove, get_owned,
  owned_at, into_iter,
}

-- What the first of two lookups decides.
abbrev pub or_else : {V : Type 0} → Option V → Option V → Option V
or_else (some v) other = some v
or_else none other = other

module _ {K V : Type 0} ⦃e : Eq K⦄ where
  -- The abstract view: the first value under a key.
  unfoldable pub first_value : K → List (MapEntry K V) → Option V
  first_value key [] = none
  first_value key (entry ∷ rest) =
      let later = first_value key rest in if e.eq entry.key key then some entry.value else later

  -- Behind the first entry.
  value_at-suc :
      (entry : MapEntry K V) (rest : List (MapEntry K V)) (p : Option ℕ)
      → value_at
          (record { entries = entry ∷ rest })
          (elim p [ some i ↦ some (suc i) | none ↦ none ])
        ≡ value_at (record { entries = rest }) p
  unfolding value_at
  value_at-suc entry rest (some i) = refl
  value_at-suc entry rest none = refl

  value_at-position :
      (key : K) (entries : List (MapEntry K V))
      → value_at (record { entries = entries }) (position key entries) ≡ first_value key entries
  unfolding value_at position first_value
  value_at-position key [] = refl
  value_at-position key (entry ∷ rest) = elim (Bool-cases (e.eq entry.key key)) [
    | inl same ↦ rw same refl
    | inr other ↦
        rw other (value_at-suc entry rest (position key rest) ∙ value_at-position key rest)
  ]

  -- `get` returns the value that stands first under the key, and nothing where there is none.
  pub get_lem : (self : TdfMap K V) (key : K) → get self key ≡ first_value key self.entries
  unfolding get index_of_key
  get_lem self key = value_at-position key self.entries

  pub first_value-append :
      (key : K) (xs ys : List (MapEntry K V))
      → first_value key (xs ++ ys) ≡ or_else (first_value key xs) (first_value key ys)
  unfolding first_value
  first_value-append key [] ys = refl
  first_value-append key (x ∷ xs) ys = elim (Bool-cases (e.eq x.key key)) [
    | inl same ↦ rw same refl
    | inr other ↦ rw other (first_value-append key xs ys)
  ]

  -- `insert` leaves the value that a key already has, and gives its value to the key inserted where
  -- that has none; it changes nothing for any other key.
  pub get-insert :
      (self : TdfMap K V) (k : K) (v : V) (key : K)
      → get (insert k v self) key ≡ or_else (get self key) (if e.eq k key then some v else none)
  unfolding insert
  get-insert self k v key =
      get_lem (insert k v self) key
      ∙ first_value-append key self.entries (record { key = k; value = v } ∷ [])
      ∙ ap (λ o. or_else o (first_value key (record { key = k; value = v } ∷ [])))
          (sym (get_lem self key))
      ∙ unfold first_value in refl

  -- The first entry under a key, and the entries without it.
  unfoldable pub without : K → List (MapEntry K V) → Option (K × V) × List (MapEntry K V)
  without key [] = (none, [])
  without key (entry ∷ rest) =
      let later = without key rest in
      if e.eq entry.key key
      then (some (entry.key, entry.value), rest)
      else (later.0, entry ∷ later.1)

  take_entry-suc :
      (entry : MapEntry K V) (rest : List (MapEntry K V)) (p : Option ℕ)
      → take_entry
          (record { entries = entry ∷ rest })
          (elim p [ some i ↦ some (suc i) | none ↦ none ])
        ≡ (let taken = take_entry (record { entries = rest }) p in
            (taken.0, record { entries = entry ∷ taken.1.entries }))
  unfolding take_entry remove_at
  take_entry-suc entry rest (some i) = refl
  take_entry-suc entry rest none = refl

  take_entry-position :
      (key : K) (entries : List (MapEntry K V))
      → take_entry (record { entries = entries }) (position key entries)
        ≡ ((without key entries).0, record { entries = (without key entries).1 })
  unfolding take_entry position without remove_at
  take_entry-position key [] = refl
  take_entry-position key (entry ∷ rest) = elim (Bool-cases (e.eq entry.key key)) [
    | inl same ↦ rw same refl
    | inr other ↦ rw other (
        take_entry-suc entry rest (position key rest)
        ∙ ap (λ (p : Option (K × V) × TdfMap K V). (p.0, record { entries = entry ∷ p.1.entries }))
            (take_entry-position key rest))
  ]

  remove_lem :
      (self : TdfMap K V) (key : K)
      → remove self key
        ≡ ((without key self.entries).0, record { entries = (without key self.entries).1 })
  unfolding remove index_of_key
  remove_lem self key = take_entry-position key self.entries

  without-other :
      (key other : K) (entries : List (MapEntry K V))
      → e.eq key other ≡ false
      → first_value other (without key entries).1 ≡ first_value other entries
  unfolding first_value without
  without-other key other [] h = refl
  without-other key other (entry ∷ rest) h = elim (Bool-cases (e.eq entry.key key)) [
    | inl same ↦
        let miss : e.eq entry.key other ≡ false =
          ap (λ k. e.eq k other) ((e.eq_iff entry.key key).0 same) ∙ h in
        rw (same, miss) refl
    | inr differs ↦ rw differs (elim (Bool-cases (e.eq entry.key other)) [
      | inl hit ↦ rw hit refl
      | inr miss ↦ rw miss (without-other key other rest h)
    ])
  ]

  -- `remove` changes no lookup of any key but the one removed.
  pub get-remove :
      (self : TdfMap K V) (key other : K)
      → e.eq key other ≡ false
      → get (remove self key).1 other ≡ get self other
  get-remove self key other h =
      get_lem (remove self key).1 other
      ∙ ap (λ (p : Option (K × V) × TdfMap K V). first_value other p.1.entries)
          (remove_lem self key)
      ∙ without-other key other self.entries h
      ∙ sym (get_lem self other)

  -- What is taken out of entries, and what is left of them: the first entry under a key, or nothing
  -- where no entry is under it.
  pub data Taken (key : K) (entries : List (MapEntry K V))
      : Option (K × V) × List (MapEntry K V) → Type 0 where
    none_under :
        All (λ entry. e.eq entry.key key ≡ false) entries → Taken key entries (none, entries)
    first_under :
        (front back : List (MapEntry K V)) (entry : MapEntry K V)
        → entries ≡ front ++ entry ∷ back
        → All (λ other. e.eq other.key key ≡ false) front
        → e.eq entry.key key ≡ true
        → Taken key entries (some (entry.key, entry.value), front ++ back)

  Taken-∷ :
      (key : K) (entry : MapEntry K V) {entries : List (MapEntry K V)}
      {taken : Option (K × V) × List (MapEntry K V)}
      → e.eq entry.key key ≡ false
      → Taken key entries taken
      → Taken key (entry ∷ entries) (taken.0, entry ∷ taken.1)
  Taken-∷ key entry differs (none_under all) = none_under (differs, all)
  Taken-∷ key entry differs (first_under front back found split all same) =
      first_under (entry ∷ front) back found (ap (◌∷◌ entry) split) (differs, all) same

  without-Taken :
      (key : K) (entries : List (MapEntry K V)) → Taken key entries (without key entries)
  unfolding without
  without-Taken key [] = none_under tt
  without-Taken key (entry ∷ rest) = elim (Bool-cases (e.eq entry.key key)) [
    | inl same ↦ rw same (first_under [] rest entry refl tt same)
    | inr differs ↦ rw differs (Taken-∷ key entry differs (without-Taken key rest))
  ]

  remove-Taken :
      (self : TdfMap K V) (key : K)
      → Taken key self.entries ((remove self key).0, (remove self key).1.entries)
  remove-Taken self key =
      subst (λ (p : Option (K × V) × TdfMap K V). Taken key self.entries (p.0, p.1.entries))
        (sym (remove_lem self key)) (without-Taken key self.entries)

  owned_at-take_entry :
      (self : TdfMap K V) (p : Option ℕ)
      → owned_at self p ≡ (
        elim (take_entry self p).0 [ some pair ↦ some pair.1 | none ↦ none ],
        (take_entry self p).1,
      )
  unfolding owned_at take_entry
  owned_at-take_entry self none = refl
  owned_at-take_entry self (some i) = go (get_elem? self.entries i)
    where
      go :
          (o : Option (MapEntry K V))
          → ◌≡◌ {A = Option V × TdfMap K V}
              (
                elim o [ some entry ↦ some entry.value | none ↦ none ],
                record { entries = remove_at i self.entries },
              )
              (
                elim (elim o as (λ _. Option (K × V)) [
                  | some entry ↦ some (entry.key, entry.value)
                  | none ↦ none
                ]) [ some pair ↦ some pair.1 | none ↦ none ],
                record { entries = remove_at i self.entries },
              )
      go (some entry) = refl
      go none = refl

  without-value :
      (key : K) (entries : List (MapEntry K V))
      → (elim (without key entries).0 [ some pair ↦ some pair.1 | none ↦ none ])
        ≡ first_value key entries
  unfolding first_value without
  without-value key [] = refl
  without-value key (entry ∷ rest) = elim (Bool-cases (e.eq entry.key key)) [
    | inl same ↦ rw same refl
    | inr differs ↦ rw differs (without-value key rest)
  ]

  -- `get_owned` takes the value out that `get` returns, and leaves the map that `remove` leaves.
  get_owned-get :
      (self : TdfMap K V) (key : K) → get_owned self key ≡ (get self key, (remove self key).1)
  unfolding get_owned remove
  get_owned-get self key =
      owned_at-take_entry self (index_of_key self key)
      ∙ ap (λ v. (v, (remove self key).1))
          (ap
              (λ (p : Option (K × V) × TdfMap K V). elim p.0 [
                | some pair ↦ some pair.1
                | none ↦ none
              ])
              (remove_lem self key)
            ∙ without-value key self.entries
            ∙ sym (get_lem self key))

  -- `insert` puts its entry behind all others: it leaves the value that a key already has, and gives
  -- its value to the key inserted where that has none. `remove` takes the first entry under its key
  -- out, returns it, and keeps all others in their order, or it returns nothing and keeps the map
  -- where no entry is under the key; it changes no lookup of any other key. `get_owned` returns the
  -- value that `get` returns, and leaves the map that `remove` leaves.
  pub lookup_lem :
      (self : TdfMap K V) (k : K) (v : V) (key other : K)
      → e.eq key other ≡ false
      → (into_iter (insert k v self) ≡ into_iter self ++ (k, v) ∷ [])
        × (get (insert k v self) key ≡ or_else (get self key) (if e.eq k key then some v else none))
        × Taken key self.entries ((remove self key).0, (remove self key).1.entries)
        × (get (remove self key).1 other ≡ get self other)
        × (get_owned self key ≡ (get self key, (remove self key).1))
  unfolding into_iter insert
  lookup_lem self k v key other h = (
    map-append (λ (entry : MapEntry K V). (entry.key, entry.value)) self.entries
        (record { key = k; value = v } ∷ []),
    get-insert self k v key,
    remove-Taken self key,
    get-remove self key other h,
    get_owned-get self key,
  )
