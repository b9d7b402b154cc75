-- ===== src/VarInt/Decode.antt =====
-- `impl_decode_var` reads every encoding that is short enough for its type.
use native.Mathlib.Numerals.{towards_suc}
use native.Mathlib.Nat.{mod-eq_of_lt}
use mathlib.Core.Path.{subst}
use blaze_pk_rs.Prelude.{
  ℕ, zero, suc, ◌+◌, ◌*◌, ◌%◌, ◌^◌, ◌≤◌, ◌<◌, ◌≡◌, ap, List, [], ◌∷◌, bit_and, bit_or, length,
  arith, lt→ltb, le→not_ltb,
}
use blaze_pk_rs.Prelude.Bits.{bit_or_above, bit_and_127, bit_and_63}
use blaze_pk_rs.Reader.{pure, read_byte}
use blaze_pk_rs.Reader.Reads.{Reads, Reads-pure, Reads-bind, read_byte-Reads}
use blaze_pk_rs.Reader.VarInt.{decode_var_loop, impl_decode_var}
use blaze_pk_rs.VarInt.{Groups, last, more, Encodes, short, long}

shift_seven : (s : ℕ) → 2 ^ (s + 7) ≡ 128 * 2 ^ s
shift_seven s = simp towards_suc (omega arith)

-- The group of a byte joined to the lower bits.
join :
    (w result shift byte c : ℕ)
    → result < 2 ^ shift
    → byte % 128 ≡ c
    → result + c * 2 ^ shift < 2 ^ w
    → bit_or result (bit_and byte 127 * 2 ^ shift % 2 ^ w) ≡ result + c * 2 ^ shift
join w result shift byte c low e fits =
    let below : c * 2 ^ shift < 2 ^ w = omega arith in
    rw (bit_and_127 byte) (rw e (rw (mod-eq_of_lt below) (bit_or_above shift c result low)))

-- One round on a byte.
module _ (w result shift byte c : ℕ) (low : result < 2 ^ shift) (e : byte % 128 ≡ c)
    (fits : result + c * 2 ^ shift < 2 ^ w) (below : shift < w) where
  round_last :
      (fuel : ℕ)
      → byte < 128
      → Reads (decode_var_loop (suc fuel) w result shift) (byte ∷ []) (result + c * 2 ^ shift)
  unfolding decode_var_loop
  round_last fuel h = Reads-bind read_byte _ (read_byte-Reads byte) (
      rw (lt→ltb shift w below)
        (rw (lt→ltb byte 128 h) (rw (join w result shift byte c low e fits) (Reads-pure _))))

  round_more :
      (fuel : ℕ) {xs : List ℕ} {v : ℕ}
      → 128 ≤ byte
      → Reads (decode_var_loop fuel w (result + c * 2 ^ shift) (shift + 7)) xs v
      → Reads (decode_var_loop (suc fuel) w result shift) (byte ∷ xs) v
  unfolding decode_var_loop
  round_more fuel h k = Reads-bind read_byte _ (read_byte-Reads byte) (
      rw (lt→ltb shift w below)
        (rw (le→not_ltb byte 128 h) (rw (join w result shift byte c low e fits) k)))

-- The number whose groups start with `g`, shifted.
split_shifted : (g c d s : ℕ) → d ≡ g + 128 * c → d * 2 ^ s ≡ g * 2 ^ s + c * 2 ^ (s + 7)
split_shifted g c d s e =
    omega (arith, ap (λ (t : ℕ). t * 2 ^ s) e, ap (λ (t : ℕ). c * t) (shift_seven s))

group_fits : (result g s : ℕ) → result < 2 ^ s → g < 128 → result + g * 2 ^ s < 2 ^ (s + 7)
group_fits result g s h k =
    let bound : g * 2 ^ s ≤ 127 * 2 ^ s = grind arith in omega (arith, shift_seven s, bound)

length-Groups : {c : ℕ} {xs : List ℕ} → Groups c xs → 0 < length xs
length-Groups (last h) = omega arith
length-Groups (more h e g) = omega arith

pub decode_var_loop-Reads :
    (w result shift fuel : ℕ) {c : ℕ} {xs : List ℕ}
    → Groups c xs
    → result < 2 ^ shift
    → result + c * 2 ^ shift < 2 ^ w
    → shift + 7 * length xs < w + 7
    → length xs ≤ fuel
    → Reads (decode_var_loop fuel w result shift) xs (result + c * 2 ^ shift)
decode_var_loop-Reads w result shift zero (last h) low fits room f = absurd (omega arith)
decode_var_loop-Reads w result shift zero (more h e g) low fits room f = absurd (omega arith)
decode_var_loop-Reads w result shift (suc fuel) {c} (last h) low fits room f =
    round_last w result shift c c low (omega arith) fits (omega arith) fuel h
decode_var_loop-Reads w result shift (suc fuel) {c = d} (more {c = c} {g = g} {xs = xs} h e rest)
      low fits room f =
    let split = split_shifted g c d shift e in
    round_more w result shift (g + 128) g low (omega arith) (omega (arith, split))
      (omega (arith, length-Groups rest)) fuel (omega arith)
      (subst (λ v. Reads (decode_var_loop fuel w (result + g * 2 ^ shift) (shift + 7)) xs v)
        (omega (arith, split))
        (decode_var_loop-Reads w (result + g * 2 ^ shift) (shift + 7) fuel rest
          (group_fits result g shift low h) (omega (arith, split)) (omega arith) (omega arith)))

-- At a type of `w` bits, at least six, `impl_decode_var` reads every encoding of a number below 2 ^
-- w as that number, with more bytes than it needs too, if `7 * n < w + 8` for its `n` bytes.
pub impl_decode_var-Reads :
    (w : ℕ) {v : ℕ} {xs : List ℕ}
    → 6 ≤ w
    → v < 2 ^ w
    → 7 * length xs < w + 8
    → Encodes v xs
    → Reads (impl_decode_var w) xs v
unfolding impl_decode_var
impl_decode_var-Reads w six fits room (short {v} h) = Reads-bind read_byte _ (read_byte-Reads v) (
    rw (lt→ltb v 128 (omega arith))
      (rw (bit_and_63 v) (subst (λ u. Reads (pure u) [] v) (omega arith) (Reads-pure v))))
impl_decode_var-Reads w six fits room (long {c} {v} {g} {xs} h e groups) =
    Reads-bind read_byte _ (read_byte-Reads (g + 128)) (
      rw (le→not_ltb (g + 128) 128 (omega arith)) (
        rw (bit_and_63 (g + 128)) (
          subst (λ u. Reads (decode_var_loop (suc w) w ((g + 128) % 64) 6) xs u) (omega arith)
            (decode_var_loop-Reads w ((g + 128) % 64) 6 (suc w) groups (omega arith) (omega arith)
              (omega arith) (omega arith)))))
