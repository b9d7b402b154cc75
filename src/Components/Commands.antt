-- ===== src/Components/Commands.antt =====
-- The derived `command` and `from_value` are inverse to each other.
use mathlib.Core.Path.{subst}
use blaze_pk_rs.Prelude.{
  ℕ, ◌≡◌, ◌≢◌, refl, sym, ap, ◌∙◌, List, [], ◌∷◌, Option, none, some, Bool, true, false, ◌==◌,
  ==_iff, if◌then◌else◌, inl, inr, Bool-cases, not,
}
use blaze_pk_rs.Components.{
  CommandOpts, Variant, this, other, command, Arms, shift, collect, match_arms, from_value,
}

-- Whether the variant is a notify one.
unfoldable pub notifies : {variants : List CommandOpts} → Variant variants → Bool
notifies (this {opts}) = opts.notify
notifies (other x) = notifies x

lift :
    {opts : CommandOpts} {rest : List CommandOpts}
    → Option (Variant rest)
    → Option (Variant (opts ∷ rest))
lift (some x) = some (other x)
lift none = none

match_arms-shift :
    {opts : CommandOpts} {rest : List CommandOpts} (value : ℕ) (arms : Arms rest)
    → match_arms value (shift {opts = opts} arms) ≡ lift (match_arms value arms)
unfolding match_arms shift lift
match_arms-shift value [] = refl
match_arms-shift value ((target, x) ∷ arms) = elim (Bool-cases (value == target)) [
  | inl hit ↦ rw hit refl
  | inr miss ↦ rw miss (match_arms-shift value arms)
]

-- The arm that a `match` over the collected arms takes.
abbrev pick : Bool → (variants : List CommandOpts) → ℕ → Option (Variant variants)
pick notify variants value = match_arms value (collect notify variants)

from_value-pick :
    (variants : List CommandOpts) (value : ℕ) (notify : Bool)
    → from_value variants value notify ≡ pick notify variants value
unfolding from_value
from_value-pick variants value true = refl
from_value-pick variants value false = refl

-- What the first variant adds to a `match`.
step :
    {opts : CommandOpts} {rest : List CommandOpts}
    → Bool
    → ℕ
    → Option (Variant rest)
    → Option (Variant (opts ∷ rest))
step {opts} hit value later =
    if hit then (if value == opts.target then some this else lift later) else lift later

agree : Bool → Bool → Bool
agree true b = b
agree false b = not b

pick-cons :
    (notify : Bool) (opts : CommandOpts) (rest : List CommandOpts) (value : ℕ)
    → pick notify (opts ∷ rest) value
      ≡ step (agree opts.notify notify) value (pick notify rest value)
unfolding match_arms collect step agree
pick-cons true opts rest value = elim (Bool-cases opts.notify) [
  | inl e ↦ rw e (
      ap (λ later. if value == opts.target then some this else later)
        (match_arms-shift value (collect true rest)))
  | inr e ↦ rw e (match_arms-shift value (collect true rest))
]
pick-cons false opts rest value = elim (Bool-cases opts.notify) [
  | inl e ↦ rw e (match_arms-shift value (collect false rest))
  | inr e ↦ rw e (
      ap (λ later. if value == opts.target then some this else later)
        (match_arms-shift value (collect false rest)))
]

-- No two variants of one kind have the same target.
abbrev pub Distinct : List CommandOpts → Type 0
Distinct [] = Unit
Distinct (opts ∷ rest) =
    ((x : Variant rest) → notifies x ≡ opts.notify → command x ≢ opts.target) × Distinct rest

pub not_same : (a b : ℕ) → a ≢ b → (a == b) ≡ false
not_same a b h = elim (Bool-cases (a == b)) [ inl e ↦ absurd (h ((==_iff a b).0 e)) | inr e ↦ e ]

agree_iff : (a b : Bool) → agree a b ≡ true → a ≡ b
unfolding agree
agree_iff true true e = refl
agree_iff true false e = absurd (cc)
agree_iff false true e = absurd (cc)
agree_iff false false e = refl

agree_refl : (a : Bool) → agree a a ≡ true
unfolding agree
agree_refl true = refl
agree_refl false = refl

-- What a lookup has found: its number and its kind.
pub record Found {variants : List CommandOpts} (value : ℕ) (notify : Bool) (x : Variant variants)
    : Type 0 where
  pub has_value : command x ≡ value
  pub has_kind : notifies x ≡ notify

abbrev Finds : {variants : List CommandOpts} → ℕ → Bool → Option (Variant variants) → Type 0
Finds value notify none = Unit
Finds value notify (some x) = Found value notify x

Finds-lift :
    (opts : CommandOpts) {rest : List CommandOpts} (value : ℕ) (notify : Bool)
    (o : Option (Variant rest))
    → Finds value notify o
    → Finds value notify (lift {opts = opts} o)
unfolding lift command notifies
Finds-lift opts value notify none h = tt
Finds-lift opts value notify (some x) h = record { has_value = h.has_value; has_kind = h.has_kind }

Finds-pick :
    (variants : List CommandOpts) (value : ℕ) (notify : Bool)
    → Finds value notify (pick notify variants value)
unfolding match_arms collect step command notifies
Finds-pick [] value notify = tt
Finds-pick (opts ∷ rest) value notify =
    subst (Finds value notify) (sym (pick-cons notify opts rest value))
      (go (Finds-pick rest value notify))
  where
    go :
        Finds value notify (pick notify rest value)
        → Finds value notify
            (step {opts = opts} (agree opts.notify notify) value (pick notify rest value))
    go later = elim (Bool-cases (agree opts.notify notify)) [
      | inl kind ↦ elim (Bool-cases (value == opts.target)) [
        | inl hit ↦
            rw (kind, hit)
              (record {
                has_value = sym ((==_iff value opts.target).0 hit);
                has_kind = agree_iff opts.notify notify kind;
              })
        | inr miss ↦ rw (kind, miss) (Finds-lift opts value notify (pick notify rest value) later)
      ]
      | inr kind ↦ rw kind (Finds-lift opts value notify (pick notify rest value) later)
    ]

-- What the derived `from_value` returns has the number that was looked up as its command, and is of
-- the kind that was looked up, whatever the targets are.
pub from_value_sound :
    (variants : List CommandOpts) (value : ℕ) (notify : Bool) (x : Variant variants)
    → from_value variants value notify ≡ some x
    → (command x ≡ value) × (notifies x ≡ notify)
from_value_sound variants value notify x e =
    let h : Found value notify x =
      subst (Finds value notify) (sym (from_value-pick variants value notify) ∙ e)
        (Finds-pick variants value notify) in
    (h.has_value, h.has_kind)

pick-command :
    {variants : List CommandOpts} (x : Variant variants)
    → Distinct variants
    → pick (notifies x) variants (command x) ≡ some x
unfolding step command notifies lift
pick-command (this {opts} {rest}) (first, others) =
    pick-cons opts.notify opts rest opts.target
    ∙ rw (agree_refl opts.notify, (==_iff opts.target opts.target).1 refl) refl
pick-command (other {opts} {rest} x) (first, others) =
    pick-cons (notifies x) opts rest (command x)
    ∙ elim (Bool-cases (agree opts.notify (notifies x))) [
      | inl kind ↦
          rw
            (
              kind,
              not_same (command x) opts.target
                  (first x (sym (agree_iff opts.notify (notifies x) kind))),
              pick-command x others,
            )
            refl
      | inr kind ↦ rw (kind, pick-command x others) refl
    ]

-- Where no two variants of one kind have the same target, the derived `from_value` finds every
-- variant by its command and its kind.
pub from_value-command :
    {variants : List CommandOpts} (x : Variant variants)
    → Distinct variants
    → from_value variants (command x) (notifies x) ≡ some x
from_value-command {variants} x h =
    from_value-pick variants (command x) (notifies x) ∙ pick-command x h
