-- ===== src/Serialize.antt =====
-- src/serialize.rs: the implementations of `Serialize`. The crate `serde`, which the repository uses
-- and does not contain, is a serializer: the operations that are called on it.
use blaze_pk_rs.Prelude.{
  ℕ, suc, ◌≡◌, refl, sym, ap, ◌∙◌, List, [], ◌∷◌, ◌++◌, append_assoc, append-nil, Option, some,
  length,
}
use blaze_pk_rs.Types.Map.{MapEntry, TdfMap, len, into_iter}

-- `Result`
pub data Outcome (E A : Type 0) : Type 0 where
  success : A → Outcome E A
  failure : E → Outcome E A

module _ {E A B : Type 0} where
  infixl 5 ◌>>=◌
  -- `m?` and what follows it.
  unfoldable pub ◌>>=◌ : Outcome E A → (A → Outcome E B) → Outcome E B
  success a >>= k = k a
  failure e >>= k = failure e

-- A serializer of maps and of sequences. `serialize_entry` changes the state of the map.
pub record Serializer (K V T : Type 0) : Type 1 where
  pub Ok : Type 0
  pub Error : Type 0
  pub SerializeMap : Type 0
  pub serialize_map : Option ℕ → Outcome Error SerializeMap
  pub serialize_entry : K → V → SerializeMap → Outcome Error SerializeMap
  pub end : SerializeMap → Outcome Error Ok
  -- `Vec::serialize`, which serde implements.
  pub serialize_vec : List T → Outcome Error Ok

module _ {K V T : Type 0} (s : Serializer K V T) where
  open s use {Ok, Error, SerializeMap, serialize_map, serialize_entry, end, serialize_vec}

  -- `for (k, v) in self.iter()`
  unfoldable pub serialize_entries : List (K × V) → SerializeMap → Outcome Error SerializeMap
  serialize_entries [] state = success state
  serialize_entries ((k, v) ∷ rest) state =
      serialize_entry k v state >>= λ state'. serialize_entries rest state'

  -- `TdfMap::serialize`
  unfoldable pub serialize : TdfMap K V → Outcome Error Ok
  unfolding serialize_entries ◌>>=◌ len into_iter
  serialize self = serialize_map (some (len self)) >>= λ state.
      serialize_entries (into_iter self) state >>= λ state'. end state'

  -- `VarIntList::serialize` and `Blob::serialize`
  unfoldable pub serialize_list : List T → Outcome Error Ok
  serialize_list self = serialize_vec self

  length-into_iter :
      (entries : List (MapEntry K V))
      → length (into_iter (record { entries = entries })) ≡ length entries
  unfolding into_iter
  length-into_iter [] = refl
  length-into_iter (entry ∷ rest) = ap suc (length-into_iter rest)

  -- What a serializer has been told of a map: its length, and its entries so far.
  pub record Log : Type 0 where
    pub announced : SerializeMap → Option ℕ
    pub told : SerializeMap → List (K × V)
    pub starts :
        (n : Option ℕ) (state : SerializeMap)
        → serialize_map n ≡ success state
        → (announced state ≡ n) × (told state ≡ [])
    pub grows :
        (k : K) (v : V) (state state' : SerializeMap)
        → serialize_entry k v state ≡ success state'
        → (announced state' ≡ announced state) × (told state' ≡ told state ++ (k, v) ∷ [])

  module _ (log : Log) where
    open log use {announced, told, starts, grows}

    -- What `last` knows once `pairs` have been told to `state`.
    Grown : List (K × V) → SerializeMap → SerializeMap → Type 0
    Grown pairs state last = (announced last ≡ announced state) × (told last ≡ told state ++ pairs)

    add_entry-Grown :
        {k : K} {v : V} (pairs : List (K × V)) {state next : SerializeMap} (last : SerializeMap)
        → serialize_entry k v state ≡ success next
        → Grown pairs next last
        → Grown ((k, v) ∷ pairs) state last
    unfolding Grown
    add_entry-Grown {k} {v} pairs {state} {next} last p (a, t) =
        let (b, u) = grows k v state next p in
        (a ∙ b, t ∙ ap (λ xs. xs ++ pairs) u ∙ append_assoc (told state) ((k, v) ∷ []) pairs)

    entries_told :
        (pairs : List (K × V)) (state last : SerializeMap)
        → serialize_entries pairs state ≡ success last
        → Grown pairs state last
    unfolding serialize_entries Grown ◌>>=◌
    entries_told [] state last e =
        let same : state ≡ last = cc in
        (ap announced (sym same), ap told (sym same) ∙ sym (append-nil (told state)))
    entries_told ((k, v) ∷ pairs) state last e =
        one (serialize_entry k v state) refl (λ next. entries_told pairs next last) e
      where
        one :
            (m : Outcome Error SerializeMap)
            → serialize_entry k v state ≡ m
            → ((next : SerializeMap)
                → serialize_entries pairs next ≡ success last
                → Grown pairs next last)
            → (m >>= λ next. serialize_entries pairs next) ≡ success last
            → Grown ((k, v) ∷ pairs) state last
        one (success next) p tell q = add_entry-Grown pairs last p (tell next q)
        one (failure x) p tell q = absurd (cc)

    -- What a serializer ends with: it has been told the entries `pairs` and their number.
    pub record Told (pairs : List (K × V)) (o : Ok) : Type 0 where
      pub last : SerializeMap
      pub ends : end last ≡ success o
      pub number : announced last ≡ some (length pairs)
      pub entries : told last ≡ pairs

    ended :
        (self : TdfMap K V) (o : Ok) (start : SerializeMap) (m : Outcome Error SerializeMap)
        → serialize_map (some (len self)) ≡ success start
        → serialize_entries (into_iter self) start ≡ m
        → (m >>= λ last. end last) ≡ success o
        → Told (into_iter self) o
    unfolding ◌>>=◌ Grown len
    ended self o start (failure x) p q e = absurd (cc)
    ended self o start (success last) p q e =
        let (n, none_yet) = starts (some (len self)) start p in
        let (same, grown) = entries_told (into_iter self) start last q in
        record {
          last = last;
          ends = e;
          number = same ∙ n ∙ ap some (sym (length-into_iter self.entries));
          entries = grown ∙ ap (λ xs. xs ++ into_iter self) none_yet;
        }

    -- If a map is serialized, then its serializer has been told as many entries as it was
    -- announced: those of the map, in their order.
    pub serialize-Told :
        (self : TdfMap K V) (o : Ok) → serialize self ≡ success o → Told (into_iter self) o
    unfolding serialize ◌>>=◌
    serialize-Told self o e = started (serialize_map (some (len self))) refl e
      where
        started :
            (m : Outcome Error SerializeMap)
            → serialize_map (some (len self)) ≡ m
            → (m >>= λ state. serialize_entries (into_iter self) state >>= λ last. end last)
              ≡ success o
            → Told (into_iter self) o
        started (success start) p q =
            ended self o start (serialize_entries (into_iter self) start) p refl q
        started (failure x) p q = absurd (cc)
