-- ===== src/Types/Map/Sort.antt =====
-- Ordering a `TdfMap`: the keys come out in order, the entries are the same, and no lookup changes.
use blaze_pk_rs.Prelude.{
  ◌≤◌, ◌≡◌, refl, sym, ap, ◌∙◌, List, [], ◌∷◌, Option, none, some, true, false, if◌then◌else◌,
  length, leb, arith, inl, inr, Bool-cases,
}
use blaze_pk_rs.Prelude.Classes.{Eq, Ord}
use blaze_pk_rs.Types.Map.{MapEntry, TdfMap, insert_sorted, sort_by_key, order, get}
use blaze_pk_rs.Types.Map.Lookup.{first_value, get_lem}

module _ {K V : Type 0} ⦃o : Ord K⦄ where
  -- No key is above one that follows it.
  pub data Sorted : List (MapEntry K V) → Type 0 where
    nil : Sorted []
    one : {x : MapEntry K V} → Sorted (x ∷ [])
    two :
        {x y : MapEntry K V} {xs : List (MapEntry K V)}
        → o.le x.key y.key ≡ true
        → Sorted (y ∷ xs)
        → Sorted (x ∷ y ∷ xs)

  -- Below what stands first.
  abbrev Below : K → List (MapEntry K V) → Type 0
  Below k [] = Unit
  Below k (x ∷ xs) = o.le k x.key ≡ true

  Sorted-cons :
      (x : MapEntry K V) (xs : List (MapEntry K V)) → Below x.key xs → Sorted xs → Sorted (x ∷ xs)
  Sorted-cons x [] h s = one
  Sorted-cons x (y ∷ ys) h s = two h s

  Below-insert_sorted :
      (k : K) (x : MapEntry K V) (xs : List (MapEntry K V))
      → o.le k x.key ≡ true
      → Below k xs
      → Below k (insert_sorted x xs)
  unfolding insert_sorted
  Below-insert_sorted k x [] h b = h
  Below-insert_sorted k x (y ∷ ys) h b = elim (Bool-cases (o.le x.key y.key)) [
    | inl first ↦ rw first h
    | inr later ↦ rw later b
  ]

  Sorted-tail :
      {x : MapEntry K V} {xs : List (MapEntry K V)} → Sorted (x ∷ xs) → Below x.key xs × Sorted xs
  Sorted-tail one = (tt, nil)
  Sorted-tail (two h s) = (h, s)

  insert_sorted-Sorted :
      (x : MapEntry K V) (xs : List (MapEntry K V)) → Sorted xs → Sorted (insert_sorted x xs)
  unfolding insert_sorted
  insert_sorted-Sorted x [] s = one
  insert_sorted-Sorted x (y ∷ ys) s = elim (Bool-cases (o.le x.key y.key)) [
    | inl first ↦ rw first (two first s)
    | inr later ↦
        let (b, t) = Sorted-tail s in
        rw later (
          Sorted-cons y (insert_sorted x ys)
            (Below-insert_sorted y.key x ys (o.le_total x.key y.key later) b)
            (insert_sorted-Sorted x ys t))
  ]

  sort_by_key-Sorted : (xs : List (MapEntry K V)) → Sorted (sort_by_key xs)
  unfolding sort_by_key
  sort_by_key-Sorted [] = nil
  sort_by_key-Sorted (x ∷ xs) = insert_sorted-Sorted x (sort_by_key xs) (sort_by_key-Sorted xs)

  short-Sorted : (xs : List (MapEntry K V)) → length xs ≤ 1 → Sorted xs
  short-Sorted [] h = nil
  short-Sorted (x ∷ []) h = one
  short-Sorted (x ∷ y ∷ xs) h = absurd (omega arith)

  -- `order` leaves the entries in the order of their keys.
  pub order-Sorted : (self : TdfMap K V) → Sorted (order self).entries
  unfolding order
  order-Sorted self = elim (Bool-cases (leb (length self.entries) 1)) [
    | inl short ↦ rw short (short-Sorted self.entries (ground arith))
    | inr long ↦ rw long (sort_by_key-Sorted self.entries)
  ]

module _ {K V : Type 0} ⦃e : Eq K⦄ ⦃o : Ord K⦄ where
  -- The entries under a key, in their order.
  unfoldable pub under : K → List (MapEntry K V) → List (MapEntry K V)
  under key [] = []
  under key (x ∷ xs) = let rest = under key xs in if e.eq x.key key then x ∷ rest else rest

  never_both :
      (x y : MapEntry K V) (key : K)
      → o.le x.key y.key ≡ false
      → e.eq x.key key ≡ true
      → e.eq y.key key ≡ false
  never_both x y key later hit = elim (Bool-cases (e.eq y.key key)) [
    | inl same ↦
        let alike : x.key ≡ y.key =
          (e.eq_iff x.key key).0 hit ∙ sym ((e.eq_iff y.key key).0 same) in
        let above : o.le x.key x.key ≡ false = ap (λ k. o.le x.key k) alike ∙ later in
        absurd (cc (above, o.le_total x.key x.key above))
    | inr other ↦ other
  ]

  under-insert_sorted :
      (key : K) (x : MapEntry K V) (xs : List (MapEntry K V))
      → under key (insert_sorted x xs) ≡ under key (x ∷ xs)
  unfolding under insert_sorted
  under-insert_sorted key x [] = refl
  under-insert_sorted key x (y ∷ ys) = elim (Bool-cases (o.le x.key y.key)) [
    | inl first ↦ rw first refl
    | inr later ↦ rw later (step later (under-insert_sorted key x ys))
  ]
    where
      step :
          o.le x.key y.key ≡ false
          → under key (insert_sorted x ys) ≡ under key (x ∷ ys)
          → under key (y ∷ insert_sorted x ys) ≡ under key (x ∷ y ∷ ys)
      step later rest = elim (Bool-cases (e.eq x.key key)) [
        | inl hit ↦ rw rest (rw (never_both x y key later hit) refl)
        | inr miss ↦ rw rest (rw miss refl)
      ]

  under-sort_by_key :
      (key : K) (xs : List (MapEntry K V)) → under key (sort_by_key xs) ≡ under key xs
  unfolding under sort_by_key
  under-sort_by_key key [] = refl
  under-sort_by_key key (x ∷ xs) =
      under-insert_sorted key x (sort_by_key xs)
      ∙ ap (λ rest. if e.eq x.key key then x ∷ rest else rest) (under-sort_by_key key xs)

  -- `order` keeps the entries under each key, and their order among themselves.
  pub under-order :
      (self : TdfMap K V) (key : K) → under key (order self).entries ≡ under key self.entries
  unfolding order
  under-order self key = elim (Bool-cases (leb (length self.entries) 1)) [
    | inl short ↦ rw short refl
    | inr long ↦ rw long (under-sort_by_key key self.entries)
  ]

  head_value : List (MapEntry K V) → Option V
  head_value [] = none
  head_value (x ∷ xs) = some x.value

  first_of : (key : K) (xs : List (MapEntry K V)) → first_value key xs ≡ head_value (under key xs)
  unfolding first_value under head_value
  first_of key [] = refl
  first_of key (x ∷ xs) = elim (Bool-cases (e.eq x.key key)) [
    | inl hit ↦ rw hit refl
    | inr miss ↦ rw miss (first_of key xs)
  ]

  first_value-under :
      (key : K) (xs ys : List (MapEntry K V))
      → under key xs ≡ under key ys
      → first_value key xs ≡ first_value key ys
  first_value-under key xs ys h = first_of key xs ∙ ap head_value h ∙ sym (first_of key ys)

  -- Ordering a map changes no lookup.
  pub get-order : (self : TdfMap K V) (key : K) → get (order self) key ≡ get self key
  get-order self key =
      get_lem (order self) key
      ∙ first_value-under key (order self).entries self.entries (under-order self key)
      ∙ sym (get_lem self key)

  -- `order` leaves the entries in the order of their keys. It keeps the entries under each key, and
  -- their order among themselves, and changes no lookup.
  pub order_lem :
      (self : TdfMap K V) (key : K)
      → Sorted (order self).entries
        × (under key (order self).entries ≡ under key self.entries)
        × (get (order self) key ≡ get self key)
  order_lem self key = (order-Sorted self, under-order self key, get-order self key)
