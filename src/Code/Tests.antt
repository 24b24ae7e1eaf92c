-- ===== src/Code/Tests.antt =====
-- The analysis of a short code.
use evm_sail.Base.{ℕ, ◌≡◌, List, [], ◌∷◌, none, ok, arith}
use evm_sail.Rlp.Slices.{Slice}
use evm_sail.Profile.{amsterdam}
use evm_sail.Code.Analysis.{Tables, analyze_code}
use evm_sail.Code.Landing.{Lands, analyze_code-do_jump}

-- PUSH1 with a JUMPDEST byte as its operand, and a JUMPDEST.
abbrev bytes : List ℕ
bytes = 0x60 ∷ 0x5b ∷ 0x5b ∷ []

abbrev whole : Slice
whole = record { off = 0; len = 3 }

abbrev fresh : Tables
fresh = record { jumpdest_tables = λ i. none; next_jumpdest_table = 1 }

analyze_code-do_jump_example :
    (table : ℕ) × (next : Tables) × (analyze_code bytes whole amsterdam fresh ≡ ok (table, next))
    × ((pc g d : ℕ) → Lands bytes whole amsterdam table next pc g d)
analyze_code-do_jump_example =
    analyze_code-do_jump bytes whole amsterdam fresh (omega arith) (omega arith)
