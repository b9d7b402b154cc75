-- ===== src/Runs/Commands.antt =====
-- Runs of the derived lookups of components and commands.
use blaze_pk_rs.Prelude.{ℕ, Option, none, ◌≡◌, ◌≢◌, refl, List, [], ◌∷◌, some, true, false}
use blaze_pk_rs.Packet.{notify as notify_header}
use blaze_pk_rs.Components.{
  CommandOpts, Variant, this, other, command, from_value, derive_component, ComponentVariant,
  Component, this_component, values, from_values, is_notify, from_header,
}
use blaze_pk_rs.Components.Input.{Syn, derive_componets, derive_commands}
use blaze_pk_rs.Components.Input.Verdicts.{
  Loop, IsMapping, IsNoMapping, IsCommand, IsNoCommand, derive-Loop,
}
use blaze_pk_rs.Components.Commands.{notifies, Distinct, from_value-command}
use blaze_pk_rs.Components.Inverse.{
  derive_component-IsComponent, AreComponents, kind_of, from_header_sound, from_values-values,
}

-- `Value` with the target 0x14, and `NotifyValue` with the same target.
abbrev variants : List CommandOpts
variants = record { target = 0x14; notify = false } ∷ record { target = 0x14; notify = true } ∷ []

abbrev notify_value : Variant variants
notify_value = other this

not_alike :
    (x : Variant (record { target = 0x14; notify = true } ∷ []))
    → notifies x ≡ false
    → command x ≢ 0x14
unfolding notifies
not_alike this e = absurd (cc)
not_alike (other x) e = elim x [ ]

none_left : (x : Variant []) → notifies x ≡ true → command x ≢ 0x14
none_left x = elim x [ ]

variants-Distinct : Distinct variants
variants-Distinct = (not_alike, (none_left, tt))

command_example :
    from_value variants (command notify_value) (notifies notify_value) ≡ some notify_value
command_example = from_value-command notify_value variants-Distinct

abbrev components : List ComponentVariant
components = record { target = 1; ty = derive_component variants } ∷ []

components-AreComponents : AreComponents components
components-AreComponents = (derive_component-IsComponent variants variants-Distinct, tt)

no_component : (x : Component []) → (values x).0 ≢ 1
no_component x = elim x [ ]

abbrev value : Component components
unfolding derive_component
value = this_component notify_value

header_example :
    (values value ≡ (1, 0x14))
    × (kind_of value components-AreComponents ≡ is_notify (notify_header 1 0x14).ty)
unfolding from_header derive_component notify_header
header_example =
    from_header_sound components components-AreComponents (notify_header 1 0x14) value refl

values_example :
    from_values components
      (values value).0
      (values value).1
      (kind_of value components-AreComponents)
    ≡ some value
values_example = from_values-values value components-AreComponents (no_component, tt)

-- Variants by their two attributes and the number of their unnamed fields.
abbrev syn : Syn
syn = record {
  DeriveInput = List (Option ℕ × Option CommandOpts × Option (List Unit));
  EnumVariant = Option ℕ × Option CommandOpts × Option (List Unit);
  Field = Unit;
  variants = some;
  unnamed = λ v. v.2;
  ty = λ field. derive_component variants;
  component_opts = λ v. v.0;
  command_opts = λ v. v.1;
}

-- A variant that is well formed, and one with two fields.
abbrev input : syn.DeriveInput
input = (some 1, none, some (tt ∷ [])) ∷ (some 2, none, some (tt ∷ tt ∷ [])) ∷ []

input_example :
    Loop syn (IsMapping syn) (IsNoMapping syn) (syn.variants input) (derive_componets syn input)
    × Loop syn (IsCommand syn) (IsNoCommand syn) (syn.variants input) (derive_commands syn input)
input_example = derive-Loop syn input
