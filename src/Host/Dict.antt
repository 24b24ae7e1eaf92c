-- ===== src/Host/Dict.antt =====
-- Python dictionaries. One that is read in its insertion order is a list of its entries, the
-- newest first; one that is only read by `get(key, default)` is a function.
use mathlib.Core.Path.{fun_ext}
use evm_sail.Base.{
  ℕ, ◌≡◌, ◌↔◌, inl, inr, refl, sym, ap, ◌∙◌, Bool, true, ◌&&◌, Option, none, some, List, [], ◌∷◌,
  arith, if◌then◌else◌, ◌==◌ as nat_beq, ==_iff, Bool-cases,
}

-- The key of a storage slot: `_storage_key`, the address with the slot.
pub record StorageKey : Type 0 where
  pub addr : ℕ
  pub slot : ℕ

abbrev pub key_beq : StorageKey → StorageKey → Bool
key_beq a b = nat_beq a.addr b.addr && nat_beq a.slot b.slot

pub key_beq_iff : (a b : StorageKey) → (key_beq a b ≡ true) ↔ (a ≡ b)
key_beq_iff a b = ground arith

-- What a dictionary asks of its keys: the test by which it finds an entry.
pub record DictKey {ℓ} (K : Type ℓ) : Type ℓ where
  pub same : K → K → Bool
  pub same_iff : (j k : K) → (same j k ≡ true) ↔ (j ≡ k)

instance abbrev pub slot_key : DictKey StorageKey
slot_key = record { same = key_beq; same_iff = key_beq_iff }

instance abbrev pub number_key : DictKey ℕ
number_key = record { same = nat_beq; same_iff = ==_iff }

abbrev pub same_key {ℓ} : {K : Type ℓ} ⦃e : DictKey K⦄ → K → K → Bool
same_key ⦃e⦄ = e.same

abbrev pub Dict {ℓ} : Type ℓ → Type ℓ → Type ℓ
Dict K V = List (K × V)

module _ {ℓ} {K V : Type ℓ} ⦃e : DictKey K⦄ where
  abbrev pub lookup : K → Dict K V → Option V
  lookup k [] = none
  lookup k ((j, v) ∷ d) = if same_key k j then some v else lookup k d

  -- `d[k] = v` for a key that is there: the entry keeps its place.
  abbrev pub assign : K → V → Dict K V → Dict K V
  assign k v [] = []
  assign k v ((j, w) ∷ d) = if same_key k j then (j, v) ∷ d else (j, w) ∷ assign k v d

  -- Writing another value and then the old one back changes nothing.
  pub assign-assign :
      (k : K) (v w : V) (d : Dict K V) → lookup k d ≡ some v → assign k v (assign k w d) ≡ d
  assign-assign k v w [] h = refl
  assign-assign k v w ((j, u) ∷ d) h = elim (Bool-cases (same_key k j)) [
    | inl same ↦ ground arith
    | inr other ↦ ground (arith, assign-assign k v w d)
  ]

  pub assign_twice : (k : K) (v w : V) (d : Dict K V) → assign k v (assign k w d) ≡ assign k v d
  assign_twice k v w [] = refl
  assign_twice k v w ((j, u) ∷ d) = elim (Bool-cases (same_key k j)) [
    | inl same ↦ ground arith
    | inr other ↦ ground (arith, assign_twice k v w d)
  ]

  pub assign-lookup : (k : K) (v : V) (d : Dict K V) → lookup k d ≡ some v → assign k v d ≡ d
  assign-lookup k v [] h = refl
  assign-lookup k v ((j, u) ∷ d) h = elim (Bool-cases (same_key k j)) [
    | inl same ↦ ground arith
    | inr other ↦ ground (arith, assign-lookup k v d)
  ]

  pub lookup_head : (k : K) (v : V) (d : Dict K V) → lookup k ((k, v) ∷ d) ≡ some v
  lookup_head k v d = rw ((e.same_iff k k).1 refl) refl

  pub lookup-assign_self :
      (k : K) {v : V} (w : V) (d : Dict K V)
      → lookup k d ≡ some v
      → lookup k (assign k w d) ≡ some w
  lookup-assign_self k w [] h = absurd (none_ne h)
    where
      none_ne : {x : V} → none ≡ some x → ⊥
      none_ne p = cc
  lookup-assign_self k {v} w ((j, u) ∷ d) h = elim (Bool-cases (same_key k j)) [
    | inl same ↦ ground arith
    | inr other ↦ ground (arith, lookup-assign_self k {v = v} w d)
  ]

  pub lookup-assign_other :
      (k j : K) (w : V) (d : Dict K V) → (j ≡ k → ⊥) → lookup j (assign k w d) ≡ lookup j d
  lookup-assign_other k j w [] differs = refl
  lookup-assign_other k j w ((i, u) ∷ d) differs = elim (Bool-cases (same_key k i)) [
    | inl same ↦ elim (Bool-cases (same_key j i)) [
      | inl found ↦ absurd (differs ((e.same_iff j i).0 found ∙ sym ((e.same_iff k i).0 same)))
      | inr missed ↦ rw (same, missed) refl
    ]
    | inr other ↦ elim (Bool-cases (same_key j i)) [
      | inl found ↦ rw (other, found) refl
      | inr missed ↦ rw (other, missed) (lookup-assign_other k j w d differs)
    ]
  ]

module _ {ℓ κ} {K : Type ℓ} {V : Type κ} ⦃e : DictKey K⦄ where
  abbrev pub update : (K → V) → K → V → K → V
  update f k v j = if same_key j k then v else f j

  -- Writing a key and then its old value back changes nothing.
  pub update-update : (f : K → V) (k : K) (v : V) → update (update f k v) k (f k) ≡ f
  update-update f k v = fun_ext at_key
    where
      at_key : (j : K) → update (update f k v) k (f k) j ≡ f j
      at_key j = elim (Bool-cases (same_key j k)) [
        | inl same ↦ rw same (ap f ((e.same_iff k j).0 (flipped j same)))
        | inr other ↦ rw other refl
      ]
        where
          flipped : (i : K) → (same_key i k) ≡ true → (same_key k i) ≡ true
          flipped i h = (e.same_iff k i).1 (sym ((e.same_iff i k).0 h))

  pub update_self : (f : K → V) (k : K) (v : V) → update f k v k ≡ v
  update_self f k v = rw ((e.same_iff k k).1 refl) refl

  pub update_other : (f : K → V) (k j : K) (v : V) → (j ≡ k → ⊥) → update f k v j ≡ f j
  update_other f k j v differs = elim (Bool-cases (same_key j k)) [
    | inl same ↦ absurd (differs ((e.same_iff j k).0 same))
    | inr other ↦ rw other refl
  ]
