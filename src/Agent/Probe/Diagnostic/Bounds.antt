-- ===== src/Agent/Probe/Diagnostic/Bounds.antt =====
-- How long the samples of agent/probe are.
use Prim.Native.Char.{Char}
use Prim.Native.String.{String, [], ◌∷◌, len}
use Prim.Native.String.len
use xisnove.Prelude.{ℕ, ◌+◌, ◌≤◌, ◌≡◌, arith, ltb, Bool-cases, inl, inr}
use xisnove.Agent.Probe.Diagnostic.{visible, bounded_runes, diagnostic}

len-cons : (c : Char) (s : String) → len (c ∷ s) ≡ len (c ∷ []) + len s
len-cons c s = omega (arith, len.cons c s, len.cons c [], len.nil)

len-bounded_runes : (held : ℕ) (s : String) → held ≤ 512 → held + len (bounded_runes held s) ≤ 512
unfolding bounded_runes
len-bounded_runes held [] h = omega (arith, len.nil)
len-bounded_runes held (c ∷ s) h =
    let size = len (visible c ∷ []) in
    let rest = bounded_runes (held + size) s in
    elim (Bool-cases (ltb 512 (held + size))) [
      | inl full ↦ rw full (omega (arith, len.nil))
      | inr fits ↦ rw fits (
          omega (
            arith,
            len-cons (visible c) rest,
            len-bounded_runes (held + size) s (ground (arith, fits)),
          ))
    ]

pub len-diagnostic : (s : String) → len (diagnostic s) ≤ 512
unfolding diagnostic
len-diagnostic s = omega (arith, len-bounded_runes 0 s (omega arith))
