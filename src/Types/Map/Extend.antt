-- ===== src/Types/Map/Extend.antt =====
-- Extending a `TdfMap` by another: the values of the other one win, the last under each key.
use blaze_pk_rs.Prelude.{
  ℕ, suc, ◌≡◌, refl, sym, ap, ◌∙◌, List, [], ◌∷◌, ◌++◌, Option, none, some, Bool, true, false,
  if◌then◌else◌, inl, inr, Bool-cases,
}
use blaze_pk_rs.Prelude.Classes.{Eq, apart}
use blaze_pk_rs.Types.Map.{
  MapEntry, TdfMap, insert, position, index_of_key, set_value, extend_entry, extend_entries, extend,
  get,
}
use blaze_pk_rs.Types.Map.Lookup.{first_value, get_lem, or_else}

or_else_if :
    {V : Type 0} (a : Option V) (b : Bool) (v : V) (w : Option V)
    → or_else a (if b then some v else w) ≡ or_else (or_else a (if b then some v else none)) w
or_else_if (some x) b v w = refl
or_else_if none true v w = refl
or_else_if none false v w = refl

module _ {K V : Type 0} ⦃e : Eq K⦄ where
  -- The abstract view of the map that is taken over: the value that stands last under a key.
  unfoldable pub last_value : K → List (MapEntry K V) → Option V
  last_value key [] = none
  last_value key (entry ∷ rest) =
      or_else (last_value key rest) (if e.eq entry.key key then some entry.value else none)

  -- One round of `extend` on the entries.
  abbrev pub round : MapEntry K V → List (MapEntry K V) → Option ℕ → List (MapEntry K V)
  round entry entries (some i) = set_value i entry.value entries
  round entry entries none = entries ++ entry ∷ []

  round-suc :
      (entry x : MapEntry K V) (xs : List (MapEntry K V)) (p : Option ℕ)
      → round entry (x ∷ xs) (elim p [ some i ↦ some (suc i) | none ↦ none ]) ≡ x ∷ round entry xs p
  unfolding set_value
  round-suc entry x xs (some i) = refl
  round-suc entry x xs none = refl

  pub first_value-round :
      (entry : MapEntry K V) (key : K) (xs : List (MapEntry K V))
      → first_value key (round entry xs (position entry.key xs))
        ≡ (if e.eq entry.key key then some entry.value else first_value key xs)
  unfolding first_value position set_value
  first_value-round entry key [] = refl
  first_value-round entry key (x ∷ xs) = elim (Bool-cases (e.eq x.key entry.key)) [
    | inl same ↦
        let alike : e.eq x.key key ≡ e.eq entry.key key =
          ap (λ k. e.eq k key) ((e.eq_iff x.key entry.key).0 same) in
        rw same (elim (Bool-cases (e.eq entry.key key)) [
          | inl hit ↦ rw (alike, hit) refl
          | inr miss ↦ rw (alike, miss) refl
        ])
    | inr differs ↦ rw differs (
        ap (first_value key) (round-suc entry x xs (position entry.key xs))
        ∙ elim (Bool-cases (e.eq x.key key)) [
          | inl hit ↦ rw (hit, apart x.key entry.key key differs hit) refl
          | inr miss ↦ rw miss (first_value-round entry key xs)
        ])
  ]

  extend_entry-round :
      (entry : MapEntry K V) (self : TdfMap K V)
      → (extend_entry entry self).entries
        ≡ round entry self.entries (position entry.key self.entries)
  unfolding extend_entry index_of_key insert
  extend_entry-round entry self = go (position entry.key self.entries)
    where
      go :
          (p : Option ℕ)
          → (elim p as (λ _. TdfMap K V) [
            | some i ↦ record { entries = set_value i entry.value self.entries }
            | none ↦ insert entry.key entry.value self
          ]).entries
            ≡ round entry self.entries p
      go (some i) = refl
      go none = refl

  get-extend_entries :
      (others : List (MapEntry K V)) (self : TdfMap K V) (key : K)
      → first_value key (extend_entries others self).entries
        ≡ or_else (last_value key others) (first_value key self.entries)
  unfolding extend_entries last_value
  get-extend_entries [] self key = refl
  get-extend_entries (entry ∷ rest) self key =
      get-extend_entries rest (extend_entry entry self) key
      ∙ ap (or_else (last_value key rest)) (
          ap (first_value key) (extend_entry-round entry self)
          ∙ first_value-round entry key self.entries)
      ∙ or_else_if (last_value key rest) (e.eq entry.key key) entry.value
          (first_value key self.entries)

  -- After `extend` a key has the value that stood last under it in the other map, and where that
  -- map has none, the value that it had.
  pub get-extend :
      (self other : TdfMap K V) (key : K)
      → get (extend self other) key ≡ or_else (last_value key other.entries) (get self key)
  unfolding extend
  get-extend self other key =
      get_lem (extend self other) key
      ∙ get-extend_entries other.entries self key
      ∙ ap (or_else (last_value key other.entries)) (sym (get_lem self key))
