-- ===== src/Tests/Ids.antt =====
-- A generator and a state for the theorems on push ids.
use webcom_sdk_c.Datasync.PushId.Bytes.{IsRand}
use webcom_sdk_c.Datasync.PushId.Value.{id_value, push_id-next}
use webcom_sdk_c.Datasync.PushId.{be_value, PushidState, increment, digit, push_id}
use webcom_sdk_c.Base64.{codes}
use webcom_sdk_c.Prelude.{ℕ, ◌+◌, ◌^◌, ◌<◌, ◌≡◌, refl, List, [], ◌∷◌, arith}

-- A generator whose numbers count up.
abbrev counter : ℕ → ℕ × ℕ
counter n = (n, n + 1)

-- The low eight bytes are about to overflow.
abbrev nine : List ℕ
nine = 7 ∷ 255 ∷ 255 ∷ 255 ∷ 255 ∷ 255 ∷ 255 ∷ 255 ∷ 255 ∷ []

nine-IsRand : IsRand nine
nine-IsRand = record { size = refl; are_bytes = ground arith }

nine-increment : increment nine ≡ 8 ∷ 0 ∷ 0 ∷ 0 ∷ 0 ∷ 0 ∷ 0 ∷ 0 ∷ 0 ∷ []
unfolding increment
nine-increment = refl

abbrev state : PushidState ℕ
state = record { last_time = 64; lastrand = nine; rand_buffer = 1 }

state-push_id : (push_id counter state 64).1 ≡ codes "------0-1-----------"
unfolding push_id digit
state-push_id = refl

below_top : be_value (push_id counter state 64).0.lastrand + 1 < 2 ^ 72
unfolding push_id be_value
below_top = omega arith

push_id-next_example :
    id_value (push_id counter (push_id counter state 64).0 64).1
    ≡ id_value (push_id counter state 64).1 + 1
push_id-next_example = push_id-next counter state 64 nine-IsRand below_top
