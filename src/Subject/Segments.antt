-- ===== src/Subject/Segments.antt =====
-- The scanning loop of `segment` against `split`.
use mathlib.Core.List.{append_assoc, append-nil}
use native.Mathlib.Decide.{ℕ_discrete}
use nats_micro.Prelude.{
  ℕ, suc, ◌+◌, ◌-◌, ◌≤◌, ◌<◌, ◌≡◌, refl, ap, sym, ◌∙◌, ◌≢◌, true, List, [], ◌∷◌, ◌++◌, some, arith,
  Str, length, length-append, get_elem?, get_elem?-append,
}
use nats_micro.Subject.Splitting.{split-ne-nil}
use nats_micro.Subject.{dot, split, is_char_boundary, segment_loop, segment}
use nats_micro.Subject.Words.{
  is_placed, boundary_at_end, boundary_at_byte, boundary_of_placed, get_range_lem, words_from,
  prepend-nil, words_from-dot, words_from_byte,
}

byte_at :
    (pre cur suf s : Str) (c : ℕ)
    → s ≡ pre ++ (cur ++ c ∷ suf)
    → get_elem? s (length pre + length cur) ≡ some c
byte_at pre cur suf s c e =
    rw (e, ← append_assoc pre cur (c ∷ suf), ← length-append pre cur)
      (get_elem?-append (pre ++ cur) (c ∷ suf))

at_index :
    (w : Str) (ws : List Str) (wanted current : ℕ)
    → current ≡ wanted
    → get_elem? (w ∷ ws) (wanted - current) ≡ some w
at_index w ws wanted current e = let zero_left : wanted - current ≡ 0 = omega arith in rw zero_left

before_index :
    (w : Str) (ws : List Str) (wanted current : ℕ)
    → current < wanted
    → get_elem? (w ∷ ws) (wanted - current) ≡ get_elem? ws (wanted - (current + 1))
before_index w ws wanted current h =
    let one_less : wanted - current ≡ suc (wanted - (current + 1)) = omega arith in rw one_less

-- The loop, entered at any byte: `pre` holds the earlier segments and `cur` the bytes of the
-- current one that were passed.
LoopFinds : Str → Str → Str → Str → ℕ → ℕ → Type 0
LoopFinds suf pre cur s wanted current =
    segment_loop (suc (length suf)) s wanted (length pre) current (length pre + length cur)
    ≡ get_elem? (words_from cur suf) (wanted - current)

loop_end :
    (pre cur s : Str) (wanted current : ℕ)
    → s ≡ pre ++ (cur ++ [])
    → is_char_boundary s (length pre) ≡ true
    → current ≤ wanted
    → LoopFinds [] pre cur s wanted current
unfolding segment_loop split LoopFinds
loop_end pre cur s wanted current e b le = ground (
  arith,
  get_range_lem pre cur [] s e b,
  ap length e,
  length-append pre (cur ++ []),
  length-append cur [],
  boundary_at_end (pre ++ cur) s (e ∙ ap (◌++◌ pre) (append-nil cur)),
  length-append pre cur,
  append-nil cur,
  at_index (cur ++ []) [] wanted current,
  before_index (cur ++ []) [] wanted current,
)

loop_dot :
    (c : ℕ) (suf pre cur s : Str) (wanted current : ℕ)
    → c ≡ dot
    → s ≡ pre ++ (cur ++ c ∷ suf)
    → is_char_boundary s (length pre) ≡ true
    → current ≤ wanted
    → (current < wanted → LoopFinds suf (pre ++ (cur ++ c ∷ [])) [] s wanted (current + 1))
    → LoopFinds (c ∷ suf) pre cur s wanted current
unfolding segment_loop LoopFinds
loop_dot c suf pre cur s wanted current at e b le rest = ground (
  arith,
  rest,
  get_range_lem pre cur (c ∷ suf) s e b,
  boundary_at_byte (pre ++ cur) c suf s (e ∙ sym (append_assoc pre cur (c ∷ suf))),
  length-append pre cur,
  byte_at pre cur suf s c e,
  words_from-dot cur c suf at,
  length-append pre (cur ++ c ∷ []),
  length-append cur (c ∷ []),
  at_index cur (words_from [] suf) wanted current,
  before_index cur (words_from [] suf) wanted current,
)

loop_byte :
    (c : ℕ) (suf pre cur s : Str) (wanted current : ℕ)
    → c ≢ dot
    → s ≡ pre ++ (cur ++ c ∷ suf)
    → LoopFinds suf pre (cur ++ c ∷ []) s wanted current
    → LoopFinds (c ∷ suf) pre cur s wanted current
unfolding segment_loop LoopFinds
loop_byte c suf pre cur s wanted current other e rest = ground (
  arith,
  rest,
  byte_at pre cur suf s c e,
  words_from_byte cur c suf other,
  length-append cur (c ∷ []),
  ap length e,
  length-append pre (cur ++ c ∷ suf),
  length-append cur (c ∷ suf),
)

-- `at` and the equations below move the byte just read into what was passed.
pass_dot :
    (c : ℕ) (suf pre cur s : Str)
    → s ≡ pre ++ (cur ++ c ∷ suf)
    → s ≡ (pre ++ (cur ++ c ∷ [])) ++ suf
pass_dot c suf pre cur s e =
    rw (append_assoc pre (cur ++ c ∷ []) suf, append_assoc cur (c ∷ []) suf) e

pass_byte :
    (c : ℕ) (suf pre cur s : Str)
    → s ≡ pre ++ (cur ++ c ∷ suf)
    → s ≡ pre ++ ((cur ++ c ∷ []) ++ suf)
pass_byte c suf pre cur s e = rw (append_assoc cur (c ∷ []) suf) e

placed_tail : (prev c : ℕ) (suf : Str) → is_placed prev (c ∷ suf) ≡ true → is_placed c suf ≡ true
placed_tail prev c suf h = ground arith

loop_lem :
    (suf pre cur s : Str) (prev wanted current : ℕ)
    → s ≡ pre ++ (cur ++ suf)
    → is_placed prev suf ≡ true
    → is_char_boundary s (length pre) ≡ true
    → current ≤ wanted
    → LoopFinds suf pre cur s wanted current
loop_lem [] pre cur s prev wanted current e placed b le = loop_end pre cur s wanted current e b le
loop_lem (c ∷ suf) pre cur s prev wanted current e placed b le =
    let later = placed_tail prev c suf placed in
    elim (ℕ_discrete c dot) [
      | yes at ↦ loop_dot c suf pre cur s wanted current at e b le λ lt.
          let passed = pass_dot c suf pre cur s e in
          loop_lem suf (pre ++ (cur ++ c ∷ [])) [] s c wanted (current + 1) passed later
            (boundary_of_placed c (pre ++ (cur ++ c ∷ [])) suf s passed (omega arith) later)
            (omega arith)
      | no other ↦ loop_byte c suf pre cur s wanted current other e (
          loop_lem suf pre (cur ++ c ∷ []) s c wanted current (pass_byte c suf pre cur s e) later b
            le)
    ]

-- On a text whose continuation bytes neither come first nor follow an ASCII byte, the scan finds
-- the `wanted`-th (from 0) of the segments that splitting at dots gives, and `None` exactly where
-- there is no such segment.
pub segment-split :
    (subject : Str) (wanted : ℕ)
    → is_placed 0 subject ≡ true
    → segment subject wanted ≡ get_elem? (split subject) wanted
unfolding segment LoopFinds
segment-split subject wanted placed = ground (
  arith,
  loop_lem subject [] [] subject 0 wanted 0 refl placed
      (boundary_of_placed 0 [] subject subject refl (omega arith) placed) (omega arith),
  prepend-nil (split subject) (split-ne-nil subject),
)
