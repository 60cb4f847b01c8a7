-- ===== src/Shell/Chunks.antt =====
-- Scripts that the shell reads in chunks.
use webcom_sdk_c.Fsm.{Fsm, parsing}
use webcom_sdk_c.Prelude.{ℕ, ◌≡◌, ◌≢◌, Bool, Option, List, [], ◌∷◌, ◌++◌}
use webcom_sdk_c.Shell.{CmdParse, chunk_eval}

-- All bytes of some chunks.
pub concat : List (List ℕ) → List ℕ
concat [] = []
concat (b ∷ bs) = b ++ concat bs

module _ (interactive : Bool) where
  -- The machine goes on parsing after each of some chunks, none of which is empty.
  unfoldable pub Accepted : List (List ℕ) → Fsm (Option CmdParse) → Type 0
  Accepted [] m = m.ps ≡ parsing
  Accepted (b ∷ bs) m = (m.ps ≡ parsing) × (b ≢ []) × Accepted bs (chunk_eval interactive b m)
