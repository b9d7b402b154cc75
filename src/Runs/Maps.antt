-- ===== src/Runs/Maps.antt =====
-- Runs of the operations of `TdfMap`, and of its serialization.
use blaze_pk_rs.Prelude.{ℕ, ◌≡◌, refl, List, [], ◌∷◌, ◌++◌, Option, none, ap}
use blaze_pk_rs.Prelude.Classes.{nat_eq, nat_ord}
use blaze_pk_rs.Serialize.{Outcome, success, Serializer, Log, Told, serialize, serialize-Told}
use blaze_pk_rs.Types.Map.Views.{get_mut, Lends, get_mut-Lends}
use blaze_pk_rs.Types.Map.{TdfMap, into_iter, insert, remove, get, get_owned, extend, order}
use blaze_pk_rs.Types.Map.Lookup.{or_else, Taken, lookup_lem}
use blaze_pk_rs.Types.Map.Extend.{last_value, get-extend}
use blaze_pk_rs.Types.Map.Sort.{Sorted, under, order_lem}

abbrev self : TdfMap ℕ ℕ
self = record {
  entries =
      record { key = 3; value = 30 }
      ∷ record { key = 1; value = 10 }
      ∷ record { key = 3; value = 31 }
      ∷ [];
}

abbrev other : TdfMap ℕ ℕ
other = record { entries = record { key = 1; value = 11 } ∷ record { key = 7; value = 70 } ∷ [] }

lookup_example :
    (into_iter (insert 7 70 self) ≡ into_iter self ++ (7, 70) ∷ [])
    × (get (insert 7 70 self) 3 ≡ or_else (get self 3) none)
    × Taken 3 self.entries ((remove self 3).0, (remove self 3).1.entries)
    × (get (remove self 3).1 1 ≡ get self 1)
    × (get_owned self 3 ≡ (get self 3, (remove self 3).1))
lookup_example = lookup_lem self 7 70 3 1 refl

extend_example : get (extend self other) 1 ≡ or_else (last_value 1 other.entries) (get self 1)
extend_example = get-extend self other 1

order_example :
    Sorted ⦃o = nat_ord⦄ (order ⦃o = nat_ord⦄ self).entries
    × (under ⦃o = nat_ord⦄ 3 (order ⦃o = nat_ord⦄ self).entries
        ≡ under ⦃o = nat_ord⦄ 3 self.entries)
    × (get (order ⦃o = nat_ord⦄ self) 3 ≡ get self 3)
order_example = order_lem ⦃o = nat_ord⦄ self 3

lends_example : Lends self 3 (get_mut self 3)
lends_example = get_mut-Lends self 3

-- A serializer that keeps what it is told.
abbrev State : Type 0
State = Option ℕ × List (ℕ × ℕ)

abbrev keeper : Serializer ℕ ℕ ℕ
keeper = record {
  Ok = List (ℕ × ℕ);
  Error = ℕ;
  SerializeMap = State;
  serialize_map = λ n. success (n, []);
  serialize_entry = λ k v state. success (state.0, state.1 ++ (k, v) ∷ []);
  end = λ state. success state.1;
  serialize_vec = λ values. success [];
}

kept :
    {state state' : State}
    → ◌≡◌ {A = Outcome ℕ State} (success state) (success state')
    → state' ≡ state
kept e = cc

abbrev log : Log keeper
log = record {
  announced = λ state. state.0;
  told = λ state. state.1;
  starts = λ n state e. (ap (λ s. s.0) (kept e), ap (λ s. s.1) (kept e));
  grows = λ k v state state' e. (ap (λ s. s.0) (kept e), ap (λ s. s.1) (kept e));
}

told_example : Told keeper log (into_iter self) ((3, 30) ∷ (1, 10) ∷ (3, 31) ∷ [])
unfolding serialize
told_example = serialize-Told keeper log self ((3, 30) ∷ (1, 10) ∷ (3, 31) ∷ []) refl
