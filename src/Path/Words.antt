-- ===== src/Path/Words.antt =====
-- What lib/datasync/path.c is to find in a path: the non-empty words between its slashes.
use webcom_sdk_c.Prelude.{
  ℕ, List, [], ◌∷◌, ◌==◌, if◌then◌else◌, ◌≡◌, refl, ◌<◌, length, true, false, arith,
}

-- An empty word is dropped.
unfoldable pub cons_word : List ℕ → List (List ℕ) → List (List ℕ)
cons_word [] ws = ws
cons_word (c ∷ w) ws = (c ∷ w) ∷ ws

-- What stands before the first slash, and the words after it.
unfoldable pub segments : List ℕ → List ℕ × List (List ℕ)
unfolding cons_word
segments [] = ([], [])
segments (c ∷ s) =
    let (w, ws) = segments s in if c == b'/' then ([], cons_word w ws) else (c ∷ w, ws)

unfoldable pub words : List ℕ → List (List ℕ)
unfolding segments
words s = let (w, ws) = segments s in cons_word w ws

pub cons_word_nonempty : (w : List ℕ) (ws : List (List ℕ)) → 0 < length w → cons_word w ws ≡ w ∷ ws
unfolding cons_word
cons_word_nonempty [] ws h = absurd (ground arith)
cons_word_nonempty (c ∷ w) ws h = refl

pub segments-slash : (c : ℕ) (s : List ℕ) → (c == b'/') ≡ true → segments (c ∷ s) ≡ ([], words s)
unfolding words segments
segments-slash c s h = rw (h, segments)

pub segments-other :
    (c : ℕ) (s : List ℕ)
    → (c == b'/') ≡ false
    → segments (c ∷ s) ≡ (c ∷ (segments s).0, (segments s).1)
unfolding segments
segments-other c s h = rw (h, segments)
