-- ===== src/Rlp/Encoder.antt =====
-- `RlpEncoder` of lib/rlp/encoding.py: reserve, write, finish or rewind.
use evm_sail.Base.{
  ℕ, ◌+◌, ◌-◌, ◌≤◌, ◌≡◌, refl, sym, ap, ◌∙◌, List, ◌++◌, length, take, drop, arith, if◌then◌else◌,
  ◌==◌, Outcome, ok, raised, le→leb,
}
use evm_sail.Rlp.Slices.{slice_bytes, sub_slice}
use evm_sail.Rlp.Scratch.{Scratch, scratch_finish, scratch_reserve, scratch_rewind}
use evm_sail.Rlp.Write.{rlp_encoder_begin, rlp_encoder_finish, rlp_encoder_rewind}
use evm_sail.Rlp.Appends.{
  IsScratch, written, Appends, HasRoom, slice-ok, ensure_length-take, ensure_length-keeps,
}
use evm_sail.Rlp.Sublists.{
  length-take, drop_append_length, take_beyond, take-drop-take, take_append,
}

scratch_reserve-IsScratch :
    (n : ℕ) (s : Scratch)
    → IsScratch s
    → IsScratch ((scratch_reserve n s).0) × (written ((scratch_reserve n s).0) ≡ written s)
unfolding scratch_reserve
scratch_reserve-IsScratch n s h = (
  record {
    arena_off = h.arena_off;
    arena_end = omega (arith, h.arena_end, ensure_length-keeps s.bytes (s.arena.len + n));
    arena_limit = h.arena_limit;
  },
  ensure_length-take s.bytes (s.arena.len + n) s.arena.len h.arena_end,
)

-- What stands after `m` written bytes.
pub slice_after :
    (r w p : List ℕ) (n m : ℕ)
    → length w ≡ m
    → take n r ≡ w ++ p
    → n ≡ m + length p
    → slice_bytes r (record { off = m; len = length p }) ≡ p
unfolding slice_bytes
slice_after r w p n m e f g =
    sym (take-drop-take (length p) m n r (omega (arith, g)))
    ∙ ap (λ l. take (length p) (drop m l)) f
    ∙ ap (λ (k : ℕ). take (length p) (drop k (w ++ p))) (sym e)
    ∙ ap (take (length p)) (drop_append_length w p)
    ∙ take_beyond (length p) p (omega arith)

scratch_finish-ok :
    (s : Scratch) (start n : ℕ)
    → IsScratch s
    → s.arena.len ≡ start + n
    → scratch_finish start s ≡ ok (record { off = start; len = n })
unfolding scratch_finish sub_slice
scratch_finish-ok s start n h e =
    let d : s.arena.len - start ≡ n = omega (arith, e) in
    rw
      (
        le→leb start s.arena.len (omega (arith, e)),
        d,
        h.arena_off,
        slice-ok (0 + start) n (omega (arith, e, h.arena_limit)),
      )
      (ap (λ (o : ℕ). ok (record { off = o; len = n })) (omega arith))

scratch_rewind-ok :
    (s : Scratch) (mark : ℕ)
    → IsScratch s
    → mark ≤ s.arena.len
    → scratch_rewind mark s
      ≡ ok (record { bytes = take mark s.bytes; arena = record { off = 0; len = mark } })
unfolding scratch_rewind sub_slice
scratch_rewind-ok s mark h le =
    rw
      (
        le→leb mark s.arena.len le,
        h.arena_off,
        slice-ok (0 + 0) mark (omega (arith, h.arena_limit)),
      )
      refl

-- A rewind to where a payload was appended.
rewound :
    (next : Scratch) (w payload : List ℕ) (mark : ℕ)
    → IsScratch next
    → length w ≡ mark
    → written next ≡ w ++ payload
    → next.arena.len ≡ mark + length payload
    → (undone : Scratch) × (scratch_rewind mark next ≡ ok undone)
      × IsScratch undone
      × (written undone ≡ w)
rewound next w payload mark valid e bytes stop = (
  record { bytes = take mark next.bytes; arena = record { off = 0; len = mark } },
  scratch_rewind-ok next mark valid (omega (arith, stop)),
  record {
    arena_off = refl;
    arena_end = omega (arith, length-take mark next.bytes (omega (arith, stop, valid.arena_end)));
    arena_limit = omega (arith, stop, valid.arena_limit);
  },
  take-drop-take mark 0 mark next.bytes (omega arith)
      ∙ sym (take-drop-take mark 0 next.arena.len next.bytes (omega (arith, stop)))
      ∙ ap (take mark) bytes
      ∙ take_append mark w payload (omega (arith, e))
      ∙ take_beyond mark w (omega (arith, e)),
)

-- An encoding that is begun, written by any writer that appends a payload where there is room for
-- it, and finished is the slice of exactly the payload if the expected length is its length, and
-- raises if it is not. A rewind in place of the finish leaves what was written before.
pub rlp_encoder-round :
    (expected : ℕ) (payload : List ℕ) (s : Scratch) (write : Scratch → Outcome Scratch)
    → IsScratch s
    → HasRoom s payload
    → ((begun : Scratch)
        → IsScratch begun
        → HasRoom begun payload
        → Appends begun (write begun) payload)
    → (next : Scratch) × (write ((rlp_encoder_begin expected s).0) ≡ ok next)
      × (rlp_encoder_finish ((rlp_encoder_begin expected s).1) next ≡ (
          if length payload == expected
          then ok (record { off = s.arena.len; len = length payload })
          else raised))
      × (slice_bytes next.bytes (record { off = s.arena.len; len = length payload }) ≡ payload)
      × ((undone : Scratch) × (rlp_encoder_rewind ((rlp_encoder_begin expected s).1) next
            ≡ ok undone)
          × IsScratch undone
          × (written undone ≡ written s))
unfolding rlp_encoder_begin rlp_encoder_finish rlp_encoder_rewind scratch_reserve
rlp_encoder-round expected payload s write h room step =
    let reserved = scratch_reserve-IsScratch expected s h in
    let (next, e, valid, bytes, stop) = step ((scratch_reserve expected s).0) reserved.0 room in
    let w = written ((scratch_reserve expected s).0) in
    let e_w : length w ≡ s.arena.len =
      length-take s.arena.len ((scratch_reserve expected s).0.bytes) reserved.0.arena_end in
    let back = rewound next w payload s.arena.len valid e_w bytes stop in
    (
      next,
      e,
      rw (scratch_finish-ok next s.arena.len (length payload) valid stop) refl,
      slice_after next.bytes w payload next.arena.len s.arena.len e_w bytes stop,
      (back.0, back.1, back.2, back.3 ∙ reserved.1),
    )
