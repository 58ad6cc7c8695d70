-- ===== src/Harness.antt =====
-- `txcript::HarnessId`, the coding agent that a session comes from. The type belongs to the txcript
-- package: it is a parameter, with the operations that this program calls.
use agent_transcript.Prelude.{Bytes, Bool, true, ◌≡◌, ◌↔◌}

pub record Harness {ℓ} (H : Type ℓ) : Type ℓ where
  -- derived `PartialEq`
  pub beq : H → H → Bool
  pub beq_iff : (a b : H) → (beq a b ≡ true) ↔ (a ≡ b)
  -- the stable name, `as_str`
  pub as_str : H → Bytes
  -- `Display`
  pub to_string : H → Bytes
