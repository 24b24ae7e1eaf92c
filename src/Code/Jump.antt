-- ===== src/Code/Jump.antt =====
-- `frame_jumpdest_valid` of evm/machine.py and `do_jump` of evm/execute.py. The code of a frame is
-- its length and the index of its table.
use evm_sail.Base.{ℕ, Bool, ltb, if◌then◌else◌}
use evm_sail.Execute.Guard.{OpcodeOutcome, continue, failed, invalid_jump}
use evm_sail.Code.Analysis.{Tables, jumpdest_ref_contains}

pub record FrameCode : Type 0 where
  pub len : ℕ
  pub jumpdests : ℕ

unfoldable pub frame_jumpdest_valid : FrameCode → ℕ → Tables → Bool
unfolding jumpdest_ref_contains
frame_jumpdest_valid frame_code dest state =
    jumpdest_ref_contains frame_code.jumpdests frame_code.len dest state

unfoldable pub do_jump : ℕ → ℕ → FrameCode → ℕ → Tables → ℕ × ℕ × OpcodeOutcome
unfolding frame_jumpdest_valid
do_jump pc_in g frame_code destination_value state =
    if ltb destination_value frame_code.len
    then (if frame_jumpdest_valid frame_code destination_value state
        then (destination_value, g, continue)
        else (pc_in, 0, failed invalid_jump))
    else (pc_in, 0, failed invalid_jump)
