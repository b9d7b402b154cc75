-- ===== src/Components/Input.antt =====
-- blaze-pk-derive/src/lib.rs: how the derive macros read their input. The crates `syn` and
-- `darling`, which the repository uses and does not contain, are the operations that are called on
-- the parsed input.
pub mod Verdicts
use blaze_pk_rs.Prelude.{ℕ, ◌≡◌, refl, ap, List, [], ◌∷◌, ◌++◌, Option, none, some}
use blaze_pk_rs.Components.{CommandOpts, PacketComponent, ComponentVariant, derive_component}

-- What the macros take from `syn` and `darling`.
pub record Syn : Type 2 where
  pub DeriveInput : Type 0
  pub EnumVariant : Type 0
  pub Field : Type 0
  -- The variants of an enum, `none` for a struct or a union.
  pub variants : DeriveInput → Option (List EnumVariant)
  -- The fields of a variant whose fields have no names, `none` for any other variant.
  pub unnamed : EnumVariant → Option (List Field)
  -- The type of a field, as the implementation of `PacketComponent` that it has.
  pub ty : Field → PacketComponent
  -- `ComponentOpts::from_attributes`, by its `target`, and `CommandOpts::from_attributes`; `none`
  -- is an error.
  pub component_opts : EnumVariant → Option ℕ
  pub command_opts : EnumVariant → Option CommandOpts

-- The panics of the macros, with the variant that they name.
pub data Refusal (Variant : Type 0) : Type 0 where
  not_enum : Refusal Variant
  bad_attributes : Variant → Refusal Variant
  not_unnamed : Variant → Refusal Variant
  not_one_field : Variant → Refusal Variant

pub data Macro {ℓ} (Variant : Type 0) (A : Type ℓ) : Type ℓ where
  expanded : A → Macro Variant A
  refused : Refusal Variant → Macro Variant A

module _ (syn : Syn) where
  open syn use {
    DeriveInput, EnumVariant, Field, variants, unnamed, ty, component_opts, command_opts,
  }

  unfoldable pub one_field :
      EnumVariant → ℕ → Option (List Field) → Macro EnumVariant ComponentVariant
  one_field variant target none = refused (not_unnamed variant)
  one_field variant target (some (value ∷ [])) =
      expanded (record { target = target; ty = ty value })
  one_field variant target (some _) = refused (not_one_field variant)

  unfoldable pub component_target : EnumVariant → Option ℕ → Macro EnumVariant ComponentVariant
  unfolding one_field
  component_target variant none = refused (bad_attributes variant)
  component_target variant (some target) = one_field variant target (unnamed variant)

  -- What a round of the loop of `derive_componets` makes of a variant.
  unfoldable pub component_variant : EnumVariant → Macro EnumVariant ComponentVariant
  unfolding component_target
  component_variant variant = component_target variant (component_opts variant)

  unfoldable pub command_target : EnumVariant → Option CommandOpts → Macro EnumVariant CommandOpts
  command_target variant none = refused (bad_attributes variant)
  command_target variant (some opts) = expanded opts

  -- What a round of the loop of `derive_component` makes of a variant.
  unfoldable pub command_variant : EnumVariant → Macro EnumVariant CommandOpts
  unfolding command_target
  command_variant variant = command_target variant (command_opts variant)

  module _ {ℓ} {A : Type ℓ} where
    unfoldable pub and_then :
        {B : Type ℓ} → Macro EnumVariant A → (A → Macro EnumVariant B) → Macro EnumVariant B
    and_then (expanded a) k = k a
    and_then (refused x) k = refused x

  module _ {ℓ} {A : Type ℓ} (round : EnumVariant → Macro EnumVariant A) where
    -- `for variant in data.variants`
    unfoldable pub each_variant : List EnumVariant → Macro EnumVariant (List A)
    unfolding and_then
    each_variant [] = expanded []
    each_variant (variant ∷ rest) =
        and_then (round variant) λ a. and_then (each_variant rest) λ later. expanded (a ∷ later)

    unfoldable pub from_enum : Option (List EnumVariant) → Macro EnumVariant (List A)
    unfolding each_variant
    from_enum none = refused not_enum
    from_enum (some vs) = each_variant vs

  -- `derive_componets`: the variants that its implementation of `PacketComponents` is for.
  unfoldable pub derive_componets : DeriveInput → Macro EnumVariant (List ComponentVariant)
  unfolding from_enum component_variant
  derive_componets input = from_enum component_variant (variants input)

  -- `derive_component`: the variants that its implementation of `PacketComponent` is for.
  unfoldable pub derive_commands : DeriveInput → Macro EnumVariant (List CommandOpts)
  unfolding from_enum command_variant
  derive_commands input = from_enum command_variant (variants input)
