-- ===== src/Components/Input/Verdicts.antt =====
-- What the derive macros make of their input, against what their input should be.
use blaze_pk_rs.Prelude.{ℕ, ◌≡◌, refl, ap, List, [], ◌∷◌, ◌++◌, Option, none, some}
use blaze_pk_rs.Components.{CommandOpts, ComponentVariant}
use blaze_pk_rs.Components.Input.{
  Syn, Refusal, not_enum, bad_attributes, not_unnamed, not_one_field, Macro, expanded, refused,
  one_field, component_target, component_variant, command_target, command_variant, and_then,
  each_variant, from_enum, derive_componets, derive_commands,
}

module _ (syn : Syn) where
  open syn use {
    DeriveInput, EnumVariant, Field, variants, unnamed, ty, component_opts, command_opts,
  }

  module _ {ℓ} {A : Type ℓ} (Good : EnumVariant → A → Type ℓ)
      (Bad : EnumVariant → Refusal EnumVariant → Type 0) where
    pub data Verdict (v : EnumVariant) : Macro EnumVariant A → Type ℓ where
      good : {a : A} → Good v a → Verdict v (expanded a)
      bad : {x : Refusal EnumVariant} → Bad v x → Verdict v (refused x)

    -- Each variant is good, and makes the value in its place.
    pub data Each : List EnumVariant → List A → Type ℓ where
      no_variants : Each [] []
      a_variant :
          {v : EnumVariant} {a : A} {vs : List EnumVariant} {made : List A}
          → Good v a
          → Each vs made
          → Each (v ∷ vs) (a ∷ made)

    -- What is made of the variants of an enum, if there is one: the values of all of them, or the
    -- refusal of the first bad one.
    pub data Loop : Option (List EnumVariant) → Macro EnumVariant (List A) → Type ℓ where
      no_enum : Loop none (refused not_enum)
      all_good :
          {vs : List EnumVariant} {made : List A} → Each vs made → Loop (some vs) (expanded made)
      first_bad :
          {vs : List EnumVariant} {v : EnumVariant} {made : List A} {x : Refusal EnumVariant}
          (front back : List EnumVariant)
          → vs ≡ front ++ v ∷ back
          → Each front made
          → Bad v x
          → Loop (some vs) (refused x)

    Loop-∷ :
        {v : EnumVariant} {a : A} (vs : Option (List EnumVariant)) (m : Macro EnumVariant (List A))
        → Good v a
        → Loop vs m
        → Loop
            (elim vs [ some rest ↦ some (v ∷ rest) | none ↦ none ])
            (and_then syn m λ later. expanded (a ∷ later))
    unfolding and_then
    Loop-∷ none _ g no_enum = no_enum
    Loop-∷ (some _) _ g (all_good each) = all_good (a_variant g each)
    Loop-∷ {v} (some _) _ g (first_bad front back split each b) =
        first_bad (v ∷ front) back (ap (λ rest. v ∷ rest) split) (a_variant g each) b

    module _ (round : EnumVariant → Macro EnumVariant A)
        (verdict : (v : EnumVariant) → Verdict v (round v)) where
      each_variant-Loop : (vs : List EnumVariant) → Loop (some vs) (each_variant syn round vs)
      unfolding each_variant and_then
      each_variant-Loop [] = all_good no_variants
      each_variant-Loop (v ∷ vs) = go (round v) (verdict v) (each_variant-Loop vs)
        where
          go :
              (m : Macro EnumVariant A)
              → Verdict v m
              → Loop (some vs) (each_variant syn round vs)
              → Loop (some (v ∷ vs)) (
                  and_then syn m
                    λ a. and_then syn (each_variant syn round vs) λ later. expanded (a ∷ later))
          go (expanded a) (good g) later = Loop-∷ (some vs) _ g later
          go (refused x) (bad b) later = first_bad [] vs refl no_variants b

      from_enum-Loop : (vs : Option (List EnumVariant)) → Loop vs (from_enum syn round vs)
      unfolding from_enum
      from_enum-Loop none = no_enum
      from_enum-Loop (some vs) = each_variant-Loop vs

  -- A variant of a components enum as it should be: it has a target and one field without a name.
  pub record IsMapping (v : EnumVariant) (c : ComponentVariant) : Type 1 where
    pub field : Field
    pub has_target : component_opts v ≡ some c.target
    pub one_unnamed : unnamed v ≡ some (field ∷ [])
    pub same_ty : c.ty ≡ ty field

  pub data IsNoMapping (v : EnumVariant) : Refusal EnumVariant → Type 0 where
    no_target : component_opts v ≡ none → IsNoMapping v (bad_attributes v)
    no_unnamed : unnamed v ≡ none → IsNoMapping v (not_unnamed v)
    no_fields : unnamed v ≡ some [] → IsNoMapping v (not_one_field v)
    more_fields :
        {x y : Field} {fields : List Field}
        → unnamed v ≡ some (x ∷ y ∷ fields)
        → IsNoMapping v (not_one_field v)

  one_field-Verdict :
      (v : EnumVariant) (target : ℕ) (fields : Option (List Field))
      → component_opts v ≡ some target
      → unnamed v ≡ fields
      → Verdict IsMapping IsNoMapping v (one_field syn v target fields)
  unfolding one_field
  one_field-Verdict v target none h g = bad (no_unnamed g)
  one_field-Verdict v target (some []) h g = bad (no_fields g)
  one_field-Verdict v target (some (x ∷ [])) h g =
      good (record { field = x; has_target = h; one_unnamed = g; same_ty = refl })
  one_field-Verdict v target (some (x ∷ y ∷ fields)) h g = bad (more_fields g)

  component_target-Verdict :
      (v : EnumVariant) (target : Option ℕ)
      → component_opts v ≡ target
      → Verdict IsMapping IsNoMapping v (component_target syn v target)
  unfolding component_target
  component_target-Verdict v none h = bad (no_target h)
  component_target-Verdict v (some target) h = one_field-Verdict v target (unnamed v) h refl

  pub IsCommand : EnumVariant → CommandOpts → Type 0
  IsCommand v opts = command_opts v ≡ some opts

  pub data IsNoCommand (v : EnumVariant) : Refusal EnumVariant → Type 0 where
    no_command : command_opts v ≡ none → IsNoCommand v (bad_attributes v)

  command_target-Verdict :
      (v : EnumVariant) (opts : Option CommandOpts)
      → command_opts v ≡ opts
      → Verdict IsCommand IsNoCommand v (command_target syn v opts)
  unfolding command_target IsCommand
  command_target-Verdict v none h = bad (no_command h)
  command_target-Verdict v (some opts) h = good h

  -- `derive_componets` makes a mapping of each variant of an enum, in their order, where each has
  -- its attribute and exactly one field without a name; `derive_component` makes one of each
  -- variant where each has its attribute. Else they panic, for the first variant that is not so,
  -- or because their input is no enum.
  pub derive-Loop :
      (input : DeriveInput)
      → Loop IsMapping IsNoMapping (variants input) (derive_componets syn input)
        × Loop IsCommand IsNoCommand (variants input) (derive_commands syn input)
  unfolding derive_componets component_variant derive_commands command_variant
  derive-Loop input = (
    from_enum-Loop IsMapping IsNoMapping (component_variant syn)
        (λ v. component_target-Verdict v (component_opts v) refl) (variants input),
    from_enum-Loop IsCommand IsNoCommand (command_variant syn)
        (λ v. command_target-Verdict v (command_opts v) refl) (variants input),
  )
