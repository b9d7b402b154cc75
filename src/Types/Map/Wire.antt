-- ===== src/Types/Map/Wire.antt =====
-- src/types.rs, src/reader.rs: the codec of `TdfMap`, and its law.
use mathlib.Core.Path.{subst}
use blaze_pk_rs.Prelude.{
  ℕ, zero, suc, ◌*◌, ◌^◌, ◌<◌, ◌≤◌, sym, List, [], ◌∷◌, ◌++◌, append-nil, append_assoc, length,
  length-append, All, arith,
}
use blaze_pk_rs.Tag.{TdfType}
use blaze_pk_rs.Tag.Code.{to_u8}
use blaze_pk_rs.TagFormat.RoundTrip.{read_type-Reads}
use blaze_pk_rs.Reader.{Reader, ◌>>=◌, ◌>>◌, pure}
use blaze_pk_rs.Reader.VarInt.{read_usize}
use blaze_pk_rs.Reader.Tagged.{read_type}
use blaze_pk_rs.Reader.Reads.{Reads, Reads-pure, Reads-bind}
use blaze_pk_rs.Reader.Skip.{repeat, skip_nested, skip_by_type, skip_map}
use blaze_pk_rs.Reader.Seek.{expect_type, read_map_header}
use blaze_pk_rs.Writer.{Writer, ◌▸◌, nothing}
use blaze_pk_rs.Writer.Writes.{Writes, Writes-nothing, Writes-then, write_type-Writes}
use blaze_pk_rs.Writer.Tagged.{write_map_header}
use blaze_pk_rs.VarInt.RoundTrip.{write_usize-IntTrips}
use blaze_pk_rs.Codec.{Codec, IsLawful, Lawful}
use blaze_pk_rs.Types.Lists.{with_capacity}
use blaze_pk_rs.Types.Lists.Elements.{expect_type-Reads, with_capacity-Reads}
use blaze_pk_rs.Types.Map.{MapEntry, TdfMap, insert, new}

module _ {K V : Type 0} (k : Codec K) (v : Codec V) where
  unfoldable pub encode_entries : List (MapEntry K V) → Writer
  encode_entries [] = nothing
  encode_entries (entry ∷ entries) =
      k.encode entry.key ▸ v.encode entry.value ▸ encode_entries entries

  -- The loop of `read_map_body`, from the map so far.
  unfoldable pub read_entries : ℕ → TdfMap K V → Reader (TdfMap K V)
  unfolding insert
  read_entries zero map = pure map
  read_entries (suc length) map =
      k.decode >>= λ key. v.decode >>= λ value. read_entries length (insert key value map)

  -- `entry_size` is the size of a `MapEntry<K, V>` in memory.
  unfoldable pub read_map_body : ℕ → ℕ → Reader (TdfMap K V)
  unfolding with_capacity read_entries new
  read_map_body entry_size length = with_capacity entry_size length >>= λ _. read_entries length new

  unfoldable pub read_map : ℕ → Reader (TdfMap K V)
  unfolding read_map_header read_map_body
  read_map entry_size =
      read_map_header k.value_type v.value_type >>= λ length. read_map_body entry_size length

  unfoldable pub map_codec : ℕ → Codec (TdfMap K V)
  unfolding encode_entries read_map
  map_codec entry_size = record {
    encode = λ self.
        write_map_header k.value_type v.value_type (length self.entries)
        ▸ encode_entries self.entries;
    decode = read_map entry_size;
    value_type = TdfType.map;
    size_of = 24;
  }

  -- The maps that a decoder can make room for.
  pub record FitsMap (FitsK : K → Type 0) (FitsV : V → Type 0) (entry_size : ℕ) (self : TdfMap K V)
      : Type 0 where
    pub each : All (λ (entry : MapEntry K V). FitsK entry.key × FitsV entry.value) self.entries
    pub count : length self.entries < 2 ^ 64
    pub room : length self.entries * entry_size < 2 ^ 63

  record Entries (es : List (MapEntry K V)) : Type 0 where
    bytes : List ℕ
    writes : Writes (encode_entries es) bytes
    reads :
        (before : List (MapEntry K V))
        → Reads
            (read_entries (length es) (record { entries = before }))
            bytes
            (record { entries = before ++ es })
    skips :
        (depth : ℕ)
        → length bytes ≤ depth
        → Reads
            (repeat
              (length es)
              (skip_nested (suc depth) k.value_type >> skip_nested (suc depth) v.value_type))
            bytes
            tt

  entries :
      {FitsK : K → Type 0} {FitsV : V → Type 0}
      → IsLawful k FitsK
      → IsLawful v FitsV
      → (es : List (MapEntry K V))
      → All (λ (entry : MapEntry K V). FitsK entry.key × FitsV entry.value) es
      → Entries es
  unfolding encode_entries read_entries repeat insert
  entries hk hv [] fits = record {
    bytes = [];
    writes = Writes-nothing;
    reads = λ before.
        subst
          (λ es.
            Reads {A = TdfMap K V} (pure (record { entries = before })) []
              (record { entries = es }))
          (sym (append-nil before)) (Reads-pure (record { entries = before }));
    skips = λ depth d. Reads-pure tt;
  }
  entries hk hv (entry ∷ es) ((fk, fv), fits) =
      let lk = hk.law entry.key fk in
      let lv = hv.law entry.value fv in
      let rest = entries hk hv es fits in
      record {
        bytes = (lk.bytes ++ lv.bytes) ++ rest.bytes;
        writes = Writes-then (Writes-then lk.writes lv.writes) rest.writes;
        reads = λ before.
            let m = read_entries (length (entry ∷ es)) (record { entries = before }) in
            subst (λ xs. Reads m xs (record { entries = before ++ entry ∷ es }))
              (sym (append_assoc lk.bytes lv.bytes rest.bytes))
              (subst
                (λ all. Reads m (lk.bytes ++ (lv.bytes ++ rest.bytes)) (record { entries = all }))
                (append_assoc before (entry ∷ []) es)
                (Reads-bind k.decode _ lk.reads
                  (Reads-bind v.decode _ lv.reads (rest.reads (before ++ entry ∷ [])))));
        skips = λ depth d.
            Reads-bind
              (skip_nested (suc depth) k.value_type >> skip_nested (suc depth) v.value_type) _
              (Reads-bind (skip_nested (suc depth) k.value_type) _
                (lk.skips depth (
                  omega (
                    arith,
                    length-append (lk.bytes ++ lv.bytes) rest.bytes,
                    length-append lk.bytes lv.bytes,
                  )))
                (lv.skips depth (
                  omega (
                    arith,
                    length-append (lk.bytes ++ lv.bytes) rest.bytes,
                    length-append lk.bytes lv.bytes,
                  ))))
              (rest.skips depth (omega (arith, length-append (lk.bytes ++ lv.bytes) rest.bytes)));
      }

  skip_entries :
      (n depth : ℕ) {xs ys : List ℕ}
      → Reads read_usize xs n
      → ((d : ℕ)
          → length ys ≤ d
          → Reads
              (repeat n (skip_nested (suc d) k.value_type >> skip_nested (suc d) v.value_type))
              ys
              tt)
      → length ((to_u8 k.value_type ∷ to_u8 v.value_type ∷ xs) ++ ys) ≤ depth
      → Reads
          (skip_nested (suc depth) TdfType.map)
          ((to_u8 k.value_type ∷ to_u8 v.value_type ∷ xs) ++ ys)
          tt
  unfolding skip_nested skip_by_type skip_map
  skip_entries n zero hx hy h = absurd (omega arith)
  skip_entries n (suc d) {xs} {ys} hx hy h = Reads-bind read_type _ (read_type-Reads k.value_type) (
      Reads-bind read_type _ (read_type-Reads v.value_type)
        (Reads-bind read_usize _ hx (hy d (omega (arith, length-append xs ys)))))

  pub map-IsLawful :
      {FitsK : K → Type 0} {FitsV : V → Type 0} (entry_size : ℕ)
      → IsLawful k FitsK
      → IsLawful v FitsV
      → IsLawful (map_codec entry_size) (FitsMap FitsK FitsV entry_size)
  unfolding map_codec write_map_header read_map read_map_header read_map_body new
  map-IsLawful entry_size hk hv = record {
    law = λ self fits.
        let count = length self.entries in
        let n = write_usize-IntTrips count fits.count in
        let es = entries hk hv self.entries fits.each in
        record {
          bytes = (to_u8 k.value_type ∷ to_u8 v.value_type ∷ n.bytes) ++ es.bytes;
          writes =
              Writes-then
                (Writes-then
                  (Writes-then (write_type-Writes k.value_type) (write_type-Writes v.value_type))
                  n.writes)
                es.writes;
          reads =
              Reads-bind (read_map_header k.value_type v.value_type) _
                (Reads-bind read_type _ (read_type-Reads k.value_type) (
                  Reads-bind (expect_type k.value_type k.value_type) _
                    (expect_type-Reads k.value_type)
                    (Reads-bind read_type _ (read_type-Reads v.value_type) (
                      Reads-bind (expect_type v.value_type v.value_type) _
                        (expect_type-Reads v.value_type) n.reads))))
                (Reads-bind (with_capacity entry_size count) _
                  (with_capacity-Reads entry_size count fits.room) (es.reads []));
          skips = λ depth d. skip_entries count depth n.reads es.skips d;
        };
  }

  -- If keys and values are encoded, decoded to themselves and skipped, then so are maps of them, in
  -- the order of their entries and with keys that stand there more than once, where there are fewer
  -- than 2 ^ 64 entries and they take less than 2 ^ 63 bytes of memory.
  pub map-Lawful :
      {FitsK : K → Type 0} {FitsV : V → Type 0} (entry_size : ℕ) (self : TdfMap K V)
      → IsLawful k FitsK
      → IsLawful v FitsV
      → FitsMap FitsK FitsV entry_size self
      → Lawful (map_codec entry_size) self
  map-Lawful entry_size self hk hv fits = (map-IsLawful entry_size hk hv).law self fits
