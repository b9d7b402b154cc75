-- ===== src/Tag/Code.antt =====
-- src/tag.rs: the byte that stands for a type.
use blaze_pk_rs.Prelude.{ℕ, Bool, true, ◌≡◌, refl, ap, ◌↔◌, arith, ◌==◌, ==_iff, if◌then◌else◌}
use blaze_pk_rs.Tag.{TdfType}
use blaze_pk_rs.Error.{unknown_type, DecodeResult, ok, err}

-- `ty as u8`
unfoldable pub to_u8 : TdfType → ℕ
to_u8 TdfType.var_int = 0
to_u8 TdfType.string = 1
to_u8 TdfType.blob = 2
to_u8 TdfType.group = 3
to_u8 TdfType.list = 4
to_u8 TdfType.map = 5
to_u8 TdfType.union = 6
to_u8 TdfType.var_int_list = 7
to_u8 TdfType.pair = 8
to_u8 TdfType.triple = 9
to_u8 TdfType.float = 10

unfoldable pub try_from : ℕ → DecodeResult TdfType
try_from value =
    if value == 0
    then ok TdfType.var_int
    else if value == 1
    then ok TdfType.string
    else if value == 2
    then ok TdfType.blob
    else if value == 3
    then ok TdfType.group
    else if value == 4
    then ok TdfType.list
    else if value == 5
    then ok TdfType.map
    else if value == 6
    then ok TdfType.union
    else if value == 7
    then ok TdfType.var_int_list
    else if value == 8
    then ok TdfType.pair
    else if value == 9
    then ok TdfType.triple
    else if value == 10
    then ok TdfType.float
    else err (unknown_type value)

-- The derived equality of types, which compares the discriminants.
unfoldable pub ty_eq : TdfType → TdfType → Bool
unfolding to_u8
ty_eq a b = to_u8 a == to_u8 b

pub try_from-to_u8 : (ty : TdfType) → try_from (to_u8 ty) ≡ ok ty
unfolding try_from to_u8
try_from-to_u8 TdfType.var_int = refl
try_from-to_u8 _ = refl

-- A number is accepted as a type exactly when it is the code of that type.
pub try_from-eq-ok_iff : (value : ℕ) (ty : TdfType) → (try_from value ≡ ok ty) ↔ (value ≡ to_u8 ty)
unfolding try_from to_u8
try_from-eq-ok_iff value TdfType.var_int = ground arith
try_from-eq-ok_iff value _ = ground arith

pub ty_eq_iff : (a b : TdfType) → (ty_eq a b ≡ true) ↔ (a ≡ b)
unfolding ty_eq
ty_eq_iff a b = (
  λ h. cc (try_from-to_u8 a, try_from-to_u8 b, (==_iff (to_u8 a) (to_u8 b)).0 h),
  λ e. (==_iff (to_u8 a) (to_u8 b)).1 (ap to_u8 e),
)
