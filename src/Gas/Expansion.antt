-- ===== src/Gas/Expansion.antt =====
-- The memory charge of `memory_expansion_gas_cost`, and the bases of nested frames.
use native.Mathlib.Nat.{mul-le-mul}
use evm_sail.Base.{
  ℕ, ◌+◌, ◌-◌, ◌*◌, ◌≤◌, ◌<◌, ◌≡◌, ◌==◌, arith, leb, ok, if◌then◌else◌, fatal, execution_invalid,
}
use evm_sail.Gas.Memory.{
  GasCharge, gas_charge, gas_charge_unaffordable, memory_limit, memory_word_count, mem_cost,
  memory_expansion_gas_cost, memory_requested_height, memory_access, memory_absolute,
  memory_parent_base,
}

-- An exact cost, if it is available.
abbrev pub charge_within : ℕ → ℕ → GasCharge
charge_within cost available =
    if leb cost available then gas_charge cost else gas_charge_unaffordable

pub memory_word_count_mono : (a b : ℕ) → a ≤ b → memory_word_count a ≤ memory_word_count b
unfolding memory_word_count
memory_word_count_mono a b h = ground arith

pub mem_cost_mono : (a b : ℕ) → a ≤ b → mem_cost a ≤ mem_cost b
unfolding mem_cost
mem_cost_mono a b h = omega (arith, mul-le-mul h h)

-- The number of words is the byte length divided by 32, rounded up.
memory_word_count_least :
    (n : ℕ) → (n ≤ 32 * memory_word_count n) × (32 * memory_word_count n < n + 32)
unfolding memory_word_count
memory_word_count_least n = ground arith

-- The cost of a memory of `n` bytes.
abbrev pub memory_cost : ℕ → ℕ
memory_cost n = mem_cost (memory_word_count n)

-- The charge for a height that can be addressed is the growth of the memory cost, nothing where
-- memory already reaches that height, and it is affordable exactly when it is available.
memory_expansion_gas_cost_lem :
    (mem height available : ℕ)
    → height ≤ memory_limit
    → memory_expansion_gas_cost mem height available
      ≡ charge_within (memory_cost height - memory_cost mem) available
unfolding memory_expansion_gas_cost
memory_expansion_gas_cost_lem mem height available h = ground (
  arith,
  mem_cost_mono (memory_word_count mem) (memory_word_count height),
  mem_cost_mono (memory_word_count height) (memory_word_count mem),
)

-- Growing memory in two steps costs what growing it at once does: if both steps are affordable,
-- one after the other, then the whole is, at the sum of their costs.
pub memory_expansion_composes :
    (low middle high available : ℕ) {first second : ℕ}
    → low ≤ middle
    → middle ≤ high
    → high ≤ memory_limit
    → memory_expansion_gas_cost low middle available ≡ gas_charge first
    → memory_expansion_gas_cost middle high (available - first) ≡ gas_charge second
    → memory_expansion_gas_cost low high available ≡ gas_charge (first + second)
memory_expansion_composes low middle high available {first} {second} lm mh hl e f =
    rw (memory_expansion_gas_cost_lem low high available hl) (
      let e' = rw (memory_expansion_gas_cost_lem low middle available (omega arith)) at e in
      let f' = rw (memory_expansion_gas_cost_lem middle high (available - first) hl) at f in
      ground (
        arith,
        e',
        f',
        mem_cost_mono (memory_word_count low) (memory_word_count middle)
            (memory_word_count_mono low middle lm),
        mem_cost_mono (memory_word_count middle) (memory_word_count high)
            (memory_word_count_mono middle high mh),
      ))

-- A memory access is admitted exactly when the height that is charged for it can be addressed,
-- and then it requests that height.
memory_access-requested_height :
    (start size : ℕ)
    → (if leb (memory_requested_height start size) memory_limit
        then (memory_access start size
            ≡ ok (record {
              range = record { off = if size == 0 then 0 else start; len = size };
              requested_height = memory_requested_height start size;
            }))
        else (memory_access start size ≡ fatal execution_invalid))
unfolding memory_access memory_requested_height
memory_access-requested_height start size = ground arith

-- The base of a child's memory lies at the end of its parent's, and leads back to the parent's.
memory_parent_base-memory_absolute :
    (base height : ℕ) {child : ℕ}
    → memory_absolute base height ≡ ok child
    → memory_parent_base child height ≡ ok base
unfolding memory_absolute memory_parent_base
memory_parent_base-memory_absolute base height h = ground arith
