-- ===== src/Tests/Machine.antt =====
-- A machine of two states for the theorems on tools/fsm.c.
use webcom_sdk_c.Base64.{codes}
use webcom_sdk_c.Fsm.Search.{IsSortedArray, Among, binsearch-Among}
use webcom_sdk_c.Fsm.{
  Fsm, StateInfos, signed, char_at, binsearch, fsm_new, fsm_feed, fsm_end, parse_ok,
}
use webcom_sdk_c.Prelude.{
  ℕ, zero, suc, ◌+◌, ◌≡◌, ◌↔◌, refl, true, false, none, some, List, [], ◌∷◌, length, arith,
}

abbrev ab : List ℕ
ab = codes "ab"

ab-IsSortedArray : IsSortedArray ab
unfolding signed char_at
ab-IsSortedArray zero zero l h = omega arith
ab-IsSortedArray zero (suc zero) l h = omega arith
ab-IsSortedArray (suc zero) (suc zero) l h = omega arith
ab-IsSortedArray (suc i) zero l h = absurd (omega arith)
ab-IsSortedArray (suc (suc i)) (suc zero) l h = absurd (omega arith)
ab-IsSortedArray i (suc (suc j)) l h = absurd (omega arith)

binsearch-Among_example : (binsearch 98 ab ≡ true) ↔ Among 98 ab 0 (length ab)
binsearch-Among_example = binsearch-Among 98 ab ab-IsSortedArray

-- The texts of letters a and b that end with a semicolon; the machine counts the letters.
abbrev table : List (StateInfos ℕ)
table =
    record {
      accept = false;
      transitions =
          record { next = 0; matched = some ab; exec = some (λ _ n. n + 1) }
          ∷ record { next = 1; matched = some (codes ";"); exec = none }
          ∷ [];
    }
    ∷ record { accept = true; transitions = [] }
    ∷ []

abbrev fresh : Fsm ℕ
fresh = fsm_new 0 0

fresh-parses :
    fsm_end table (fsm_feed table (codes "abba;") fresh)
    ≡ record { ps = parse_ok; state = 1; user = 4; stream_index = 5; line = 1; col = 5 }
unfolding fsm_new fsm_feed fsm_end
fresh-parses = refl
