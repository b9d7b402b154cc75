-- ===== src/Writer/Writes.antt =====
-- What it means that a method of the writer appends the bytes `xs`.
use blaze_pk_rs.Prelude.{◌≡◌, refl, sym, ap, ◌∙◌, ℕ, List, [], ◌∷◌, ◌++◌, append_assoc, append-nil}
use blaze_pk_rs.Tag.{TdfType}
use blaze_pk_rs.Tag.Code.{to_u8}
use blaze_pk_rs.Writer.{TdfWriter, Writer, ◌▸◌, nothing, write_byte, write_slice, write_type}

pub record Writes (m : Writer) (xs : List ℕ) : Type 0 where
  pub run : (w : TdfWriter) → m w ≡ record { buffer = w.buffer ++ xs }

pub Writes-nothing : Writes nothing []
Writes-nothing = record { run = λ w. λ i. record { buffer = sym (append-nil w.buffer) i } }

pub Writes-then :
    {m k : Writer} {xs ys : List ℕ} → Writes m xs → Writes k ys → Writes (m ▸ k) (xs ++ ys)
unfolding ◌▸◌
Writes-then {m} {k} {xs} {ys} h g = record {
  run = λ w. ap k (h.run w) ∙ g.run _ ∙ (λ i. record { buffer = append_assoc w.buffer xs ys i });
}

pub write_byte-Writes : (value : ℕ) → Writes (write_byte value) (value ∷ [])
unfolding write_byte
write_byte-Writes value = record { run = λ w. refl }

pub write_slice-Writes : (value : List ℕ) → Writes (write_slice value) value
unfolding write_slice
write_slice-Writes value = record { run = λ w. refl }

pub write_type-Writes : (ty : TdfType) → Writes (write_type ty) (to_u8 ty ∷ [])
unfolding write_type
write_type-Writes ty = write_byte-Writes (to_u8 ty)
