-- ===== src/Kernel/Fdt/Nodes/Named.antt =====
-- The standard properties by the names that the specification of the flattened tree gives them.
use kruspix.Base.{
  ℕ, ◌≡◌, ◌≢◌, refl, sym, ap, ◌∙◌, Bool, false, inl, inr, Bool-cases, none, some, List, [], ◌∷◌,
  ◌==◌, arith, ◌<◌, ◌^◌, ◌*◌, length, ne→not_==,
}
use kruspix.Base.EqBytes.{eq_bytes-eq}
use kruspix.Base.Text.{Bytes, bytes, eq_bytes}
use kruspix.Kernel.Fdt.Memory.{word}
use kruspix.Kernel.Fdt.RawProp.{RawProp, value_as_u32, from_be_bytes}
use kruspix.Kernel.Fdt.Nodes.{
  StandardProperty, reg, address_cells, size_cells, place, into_str, arms, first_arm, try_from,
  is_ok_and_same, is_standard,
}

-- whether a property has a name
abbrev pub has_name : Bytes → RawProp → Bool
has_name name prop = eq_bytes prop.name name

-- Properties are the same where their names are.
Distinguishes : StandardProperty → List StandardProperty → Type 0
Distinguishes s [] = Unit {0}
Distinguishes s (x ∷ ss) =
    ((place x == place s) ≡ eq_bytes (into_str x) (into_str s)) × Distinguishes s ss

first_arm-name :
    (s : StandardProperty) (ss : List StandardProperty) (value : Bytes)
    → Distinguishes s ss
    → (first_arm ss value ≡ none → eq_bytes value (into_str s) ≡ false)
    → is_ok_and_same s (first_arm ss value) ≡ eq_bytes value (into_str s)
unfolding first_arm is_ok_and_same Distinguishes
first_arm-name s [] value h absent = sym (absent refl)
first_arm-name s (x ∷ ss) value (e, h) absent = elim (Bool-cases (eq_bytes value (into_str x))) [
  | inl b ↦ rw b (e ∙ ap (λ v. eq_bytes v (into_str s)) (sym (eq_bytes-eq value (into_str x) b)))
  | inr b ↦ rw b (first_arm-name s ss value h (rw b at absent))
]

-- A name that is among the arms is found.
not_absent :
    (s : StandardProperty)
    → first_arm arms (into_str s) ≢ none
    → (value : Bytes) → first_arm arms value ≡ none
    → eq_bytes value (into_str s) ≡ false
not_absent s known value h = elim (Bool-cases (eq_bytes value (into_str s))) [
  | inr b ↦ b
  | inl b ↦ absurd (known (ap (first_arm arms) (sym (eq_bytes-eq value (into_str s) b)) ∙ h))
]

pub is_reg : (prop : RawProp) → is_standard reg prop ≡ has_name (bytes "reg") prop
unfolding is_standard try_from Distinguishes place into_str first_arm
is_reg prop =
    first_arm-name reg arms prop.name
      (
        refl,
        (refl, (refl, (refl, (refl, (refl, (refl, (refl, (refl, (refl, (refl, (refl, tt))))))))))),
      )
      (not_absent reg (λ e. cc) prop.name)

pub is_address_cells :
    (prop : RawProp) → is_standard address_cells prop ≡ has_name (bytes "#address-cells") prop
unfolding is_standard try_from Distinguishes place into_str first_arm
is_address_cells prop =
    first_arm-name address_cells arms prop.name
      (
        refl,
        (refl, (refl, (refl, (refl, (refl, (refl, (refl, (refl, (refl, (refl, (refl, tt))))))))))),
      )
      (not_absent address_cells (λ e. cc) prop.name)

pub is_size_cells :
    (prop : RawProp) → is_standard size_cells prop ≡ has_name (bytes "#size-cells") prop
unfolding is_standard try_from Distinguishes place into_str first_arm
is_size_cells prop =
    first_arm-name size_cells arms prop.name
      (
        refl,
        (refl, (refl, (refl, (refl, (refl, (refl, (refl, (refl, (refl, (refl, (refl, tt))))))))))),
      )
      (not_absent size_cells (λ e. cc) prop.name)

-- A number of 32 bits comes out as it was encoded, and nothing comes out of a value of another length.
pub value_as_u32-word :
    (prop : RawProp) (n : ℕ) → n < 2 ^ 32 → prop.value ≡ word n → value_as_u32 prop ≡ some n
unfolding value_as_u32 from_be_bytes
value_as_u32-word prop n h e = rw e (ap some (omega arith))

pub value_as_u32-none : (prop : RawProp) → length prop.value ≢ 4 → value_as_u32 prop ≡ none
unfolding value_as_u32
value_as_u32-none prop ne =
    let other : (length prop.value * 8 == 32) ≡ false =
      ne→not_== (length prop.value * 8) 32 (λ e. ne (omega (arith, e))) in
    rw other refl
