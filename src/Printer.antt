-- ===== src/Printer.antt =====
-- Methods of src/reader.rs that read and append to a text.
pub mod Safety
pub mod Shows
use blaze_pk_rs.Prelude.{ℕ, zero, suc, ◌+◌, List, ◌++◌}
use blaze_pk_rs.Error.{DecodeError}
use blaze_pk_rs.Reader.{TdfReader, Run, ok, err, panic, stuck, Reader}
use blaze_pk_rs.Text.{Text}

-- Where a method ends: it returns nothing or an error, with the reader and the text as it leaves
-- them, or it panics. `stuck` is no outcome of the program.
pub data Printed : Type 0 where
  done : TdfReader → Text → Printed
  failed : DecodeError → TdfReader → Text → Printed
  panicked ran_out : Printed

abbrev pub Printer : Type 0
Printer = TdfReader → Text → Printed

-- `out.push_str(text)`
unfoldable pub push : Text → Printer
push text r out = done r (out ++ text)

infixr 5 ◌▸◌
-- `p?; q`
unfoldable pub ◌▸◌ : Printer → Printer → Printer
◌▸◌ p q r out = elim (p r out) [
  | done s out' ↦ q s out'
  | failed e s out' ↦ failed e s out'
  | panicked ↦ panicked
  | ran_out ↦ ran_out
]

-- `let a = m?;` and what follows it.
unfoldable pub read : {A : Type 0} → Reader A → (A → Printer) → Printer
read m f r out = elim (m r) [
  | ok a s ↦ f a s out
  | err e s ↦ failed e s out
  | panic ↦ panicked
  | stuck ↦ ran_out
]

-- What is written where `p` succeeds, and where it fails before its error is handed on.
unfoldable pub either_way : Printer → Text → Text → Printer
either_way p good bad r out = elim (p r out) [
  | done s out' ↦ done s (out' ++ good)
  | failed e s out' ↦ failed e s (out' ++ bad)
  | panicked ↦ panicked
  | ran_out ↦ ran_out
]

-- `for i in i..i + left`
unfoldable pub for_each : ℕ → ℕ → (ℕ → Printer) → Printer
unfolding push
for_each zero i body = λ r out. done r out
for_each (suc left) i body = body i ▸ for_each left (i + 1) body
