-- ===== src/Components/Inverse.antt =====
-- The derived `values` and `from_values` are inverse to each other.
use mathlib.Core.Path.{subst}
use blaze_pk_rs.Prelude.{
  ℕ, ◌≡◌, ◌≢◌, refl, sym, List, [], ◌∷◌, Option, none, some, Bool, true, ◌==◌, ==_iff, inl, inr,
  Bool-cases,
}
use blaze_pk_rs.Packet.{PacketHeader}
use blaze_pk_rs.Components.{
  CommandOpts, PacketComponent, derive_component, ComponentVariant, Component, this_component,
  other_component, values, from_values, is_notify, from_header,
}
use blaze_pk_rs.Components.Commands.{
  notifies, Distinct, from_value_sound, from_value-command, not_same,
}

-- An implementation of `PacketComponent`: a lookup finds what was looked up, and every value is
-- found by its command and its kind, a notification or not.
pub record IsComponent (c : PacketComponent) : Type 0 where
  pub kind : c.Value → Bool
  pub sound :
      (value : ℕ) (notify : Bool) (x : c.Value)
      → c.of_value value notify ≡ some x
      → (c.to_command x ≡ value) × (kind x ≡ notify)
  pub found : (x : c.Value) → c.of_value (c.to_command x) (kind x) ≡ some x

-- An enum whose variants of one kind have different targets derives such an implementation.
pub derive_component-IsComponent :
    (variants : List CommandOpts) → Distinct variants → IsComponent (derive_component variants)
unfolding derive_component
derive_component-IsComponent variants h = record {
  kind = notifies;
  sound = from_value_sound variants;
  found = λ x. from_value-command x h;
}

-- All fields of a components enum have such types.
abbrev pub AreComponents : List ComponentVariant → Type 0
AreComponents [] = Unit
AreComponents (v ∷ rest) = IsComponent v.ty × AreComponents rest

-- No two variants have the same target.
abbrev pub DistinctTargets : List ComponentVariant → Type 1
DistinctTargets [] = Unit
DistinctTargets (v ∷ rest) = ((x : Component rest) → (values x).0 ≢ v.target) × DistinctTargets rest

-- Whether the command of a value is a notification.
unfoldable pub kind_of :
    {variants : List ComponentVariant} → Component variants → AreComponents variants → Bool
kind_of (this_component value) (h, hs) = h.kind value
kind_of (other_component x) (h, hs) = kind_of x hs

-- What a lookup among components has found.
abbrev FindsComponent :
    {variants : List ComponentVariant}
    → AreComponents variants
    → ℕ
    → ℕ
    → Bool
    → Option (Component variants)
    → Type 0
FindsComponent h component command notify none = Unit
FindsComponent h component command notify (some x) =
    (values x ≡ (component, command)) × (kind_of x h ≡ notify)

from_values-FindsComponent :
    (variants : List ComponentVariant) (h : AreComponents variants) (component command : ℕ)
    (notify : Bool)
    → FindsComponent h component command notify (from_values variants component command notify)
unfolding from_values values kind_of
from_values-FindsComponent [] h component command notify = tt
from_values-FindsComponent (v ∷ rest) (h, hs) component command notify =
    elim (Bool-cases (component == v.target)) [
      | inl hit ↦ rw hit (inner (v.ty.of_value command notify) refl hit)
      | inr miss ↦ rw miss (
          later (from_values rest component command notify)
            (from_values-FindsComponent rest hs component command notify))
    ]
  where
    inner :
        (o : Option v.ty.Value)
        → v.ty.of_value command notify ≡ o
        → (component == v.target) ≡ true
        → FindsComponent {variants = v ∷ rest}
            (h, hs)
            component
            command
            notify
            (elim o [ some x ↦ some (this_component x) | none ↦ none ])
    inner none e hit = tt
    inner (some x) e hit =
        let (same, kind) = h.sound command notify x e in
        ((λ i. (sym ((==_iff component v.target).0 hit) i, same i)), kind)

    later :
        (o : Option (Component rest))
        → FindsComponent hs component command notify o
        → FindsComponent {variants = v ∷ rest}
            (h, hs)
            component
            command
            notify
            (elim o [ some x ↦ some (other_component x) | none ↦ none ])
    later none f = tt
    later (some x) f = f

-- What the derived `from_header` returns has the numbers of the header, and is a notification
-- exactly if the packet is one, if the types of all fields have lookups that find what was looked up.
pub from_header_sound :
    (variants : List ComponentVariant) (h : AreComponents variants) (header : PacketHeader)
    (x : Component variants)
    → from_header variants header ≡ some x
    → (values x ≡ (header.component, header.command)) × (kind_of x h ≡ is_notify header.ty)
unfolding from_header
from_header_sound variants h header x e =
    subst (FindsComponent h header.component header.command (is_notify header.ty)) e
      (from_values-FindsComponent variants h header.component header.command (is_notify header.ty))

-- Where no two variants of a components enum have the same target, and the types of all fields find
-- each value by its command and its kind, the derived `from_values` finds every value by the numbers
-- that `values` returns for it.
pub from_values-values :
    {variants : List ComponentVariant} (x : Component variants) (h : AreComponents variants)
    → DistinctTargets variants
    → from_values variants (values x).0 (values x).1 (kind_of x h) ≡ some x
unfolding from_values values kind_of
from_values-values (this_component {v} value) (h, hs) (first, others) =
    rw ((==_iff v.target v.target).1 refl) (rw (h.found value) refl)
from_values-values (other_component {v} {rest} x) (h, hs) (first, others) =
    rw (not_same (values x).0 v.target (first x)) (rw (from_values-values x hs others) refl)
