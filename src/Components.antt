-- ===== src/Components.antt =====
-- blaze-pk-derive/src/lib.rs, src/packet.rs: the traits `PacketComponents` and `PacketComponent`, and
-- what their derive macros generate for an enum whose attributes have been read.
pub mod Commands
pub mod Input
pub mod Inverse
use blaze_pk_rs.Prelude.{
  ℕ, List, [], ◌∷◌, map, Option, none, some, Bool, true, false, ◌==◌, if◌then◌else◌,
}
use blaze_pk_rs.PacketType.{PacketType}
use blaze_pk_rs.Packet.{PacketHeader}

-- The attribute `command` of a variant: `CommandOpts`.
pub record CommandOpts : Type 0 where
  pub target : ℕ
  pub notify : Bool

-- A value of an enum: one of its variants, in the order in which they are declared.
pub data Variant : List CommandOpts → Type 0 where
  this : {opts : CommandOpts} {rest : List CommandOpts} → Variant (opts ∷ rest)
  other : {opts : CommandOpts} {rest : List CommandOpts} → Variant rest → Variant (opts ∷ rest)

-- The generated `command`.
unfoldable pub command : {variants : List CommandOpts} → Variant variants → ℕ
command (this {opts}) = opts.target
command (other x) = command x

abbrev pub Arms : List CommandOpts → Type 0
Arms variants = List (ℕ × Variant variants)

unfoldable pub shift :
    {opts : CommandOpts} {rest : List CommandOpts} → Arms rest → Arms (opts ∷ rest)
shift [] = []
shift ((target, x) ∷ arms) = (target, other x) ∷ shift arms

-- The arms that the loop collects: those of the notify variants, or those of the others.
unfoldable pub collect : Bool → (variants : List CommandOpts) → Arms variants
unfolding shift
collect notify [] = []
collect notify (opts ∷ rest) =
    let arms = shift (collect notify rest) in
    if opts.notify
    then (if notify then (opts.target, this) ∷ arms else arms)
    else (if notify then arms else (opts.target, this) ∷ arms)

-- A `match` that ends in `_ => None`, and the `None` that stands for a `match` without arms.
unfoldable pub match_arms :
    {variants : List CommandOpts} → ℕ → Arms variants → Option (Variant variants)
match_arms value [] = none
match_arms value ((target, x) ∷ arms) =
    let later = match_arms value arms in if value == target then some x else later

-- The generated `from_value`.
unfoldable pub from_value : (variants : List CommandOpts) → ℕ → Bool → Option (Variant variants)
unfolding collect match_arms
from_value variants value notify =
    if notify
    then match_arms value (collect true variants)
    else match_arms value (collect false variants)

-- The trait `PacketComponent`.
pub record PacketComponent : Type 1 where
  pub Value : Type 0
  pub to_command : Value → ℕ
  pub of_value : ℕ → Bool → Option Value

-- The implementation that the macro generates.
unfoldable pub derive_component : List CommandOpts → PacketComponent
unfolding command from_value
derive_component variants = record {
  Value = Variant variants;
  to_command = command;
  of_value = from_value variants;
}

-- A variant of a components enum: its attribute `component`, and the type of its one field.
pub record ComponentVariant : Type 1 where
  pub target : ℕ
  pub ty : PacketComponent

pub data Component : List ComponentVariant → Type 1 where
  this_component :
      {v : ComponentVariant} {rest : List ComponentVariant} → v.ty.Value → Component (v ∷ rest)
  other_component :
      {v : ComponentVariant} {rest : List ComponentVariant} → Component rest → Component (v ∷ rest)

-- The generated `values`.
unfoldable pub values : {variants : List ComponentVariant} → Component variants → ℕ × ℕ
values (this_component {v} value) = (v.target, v.ty.to_command value)
values (other_component x) = values x

-- The generated `from_values`. Its `?` leaves the function, so no later arm is tried.
unfoldable pub from_values :
    (variants : List ComponentVariant) → ℕ → ℕ → Bool → Option (Component variants)
from_values [] component command notify = none
from_values (v ∷ rest) component command notify =
    let later = from_values rest component command notify in
    if component == v.target
    then elim (v.ty.of_value command notify) [ some x ↦ some (this_component x) | none ↦ none ]
    else elim later [ some x ↦ some (other_component x) | none ↦ none ]

-- `matches!(&header.ty, PacketType::Notify)`
unfoldable pub is_notify : PacketType → Bool
is_notify PacketType.notify = true
is_notify _ = false

unfoldable pub from_header :
    (variants : List ComponentVariant) → PacketHeader → Option (Component variants)
unfolding from_values is_notify
from_header variants header =
    from_values variants header.component header.command (is_notify header.ty)
