-- ===== src/Tests/Trees.antt =====
-- Trees of numbers for the theorems on lib/collection/avl.c.
use webcom_sdk_c.Tests.{by_number, by_number-IsLawful}
use webcom_sdk_c.Avl.Operations.{
  on_eq, IsValid, new-IsValid, insert-IsValid, remove-IsValid, get-insert, get-remove,
}
use webcom_sdk_c.Avl.Height.{IsBalanced, IsAvl, Grown, insert_rec-Grown}
use webcom_sdk_c.Avl.Iterator.Depth.{length-stack-le-32}
use webcom_sdk_c.Avl.Iterator.{it_start, after}
use webcom_sdk_c.Avl.Measured.{movr-unbalances}
use webcom_sdk_c.Avl.Order.{to_list}
use webcom_sdk_c.Avl.{
  Tree, nil, node, height, update_height, balance, movr, Avl, new, get, get_rec, insert, insert_rec,
  remove,
}
use webcom_sdk_c.Compare.{Cmp, IsLawful}
use webcom_sdk_c.Prelude.{ℕ, zero, suc, ◌≡◌, ◌≤◌, refl, none, some, length, arith}

abbrev numbers : Cmp ℕ
numbers = by_number (λ n. n)

instance abbrev numbers-IsLawful : IsLawful numbers
numbers-IsLawful = by_number-IsLawful (λ n. n)

abbrev one : Avl ℕ
one = (insert numbers new 5).0

abbrev two : Avl ℕ
two = (insert numbers one 3).0

abbrev three : Avl ℕ
three = (insert numbers two 4).0

two-IsValid : IsValid numbers two
two-IsValid = insert-IsValid numbers one 3 (insert-IsValid numbers new 5 (new-IsValid numbers))

no_four : get numbers two 4 ≡ none
unfolding get get_rec insert insert_rec new balance update_height height
no_four = refl

insert-IsValid_example : IsValid numbers three
insert-IsValid_example = insert-IsValid numbers two 4 two-IsValid

remove-IsValid_example : IsValid numbers (remove numbers two 3)
remove-IsValid_example = remove-IsValid numbers two 3 two-IsValid

get-insert_example : get numbers three 4 ≡ on_eq (numbers.cmp 4 4) (some 4) (get numbers two 4)
get-insert_example = get-insert numbers two 4 4 two-IsValid no_four

get-remove_example :
    get numbers (remove numbers two 3) 5 ≡ on_eq (numbers.cmp 5 3) none (get numbers two 5)
get-remove_example = get-remove numbers two 3 5 two-IsValid

-- The root of `two`, computed.
abbrev pair : Tree ℕ
pair = node (node nil 1 3 nil) 2 5 nil

two-pair : two.root ≡ pair
unfolding get get_rec insert insert_rec new balance update_height height
two-pair = refl

pair-IsAvl : IsAvl pair
unfolding height
pair-IsAvl = ground arith

two-length : length (to_list two.root) ≤ 2
unfolding to_list
two-length = rw two-pair (omega arith)

insert_rec-Grown_example : Grown pair (insert_rec numbers pair 4)
insert_rec-Grown_example = insert_rec-Grown numbers pair 4 pair-IsAvl

-- The full tree of a height.
perfect : ℕ → Tree ℕ
perfect zero = nil
perfect (suc n) = node (perfect n) (suc n) n (perfect n)

perfect-height : (n : ℕ) → height (perfect n) ≡ n
unfolding perfect height
perfect-height zero = refl
perfect-height (suc n) = refl

perfect-IsAvl : (n : ℕ) → IsAvl (perfect n)
unfolding perfect
perfect-IsAvl zero = (tt, tt)
perfect-IsAvl (suc n) =
    let v = perfect-IsAvl n in
    let h = perfect-height n in ((omega arith, v.0, v.0), (omega arith, omega arith, v.1, v.1))

movr-unbalances_example : ¬ IsBalanced (movr (node nil 1 7 nil) (perfect 5))
movr-unbalances_example =
    movr-unbalances 7 (perfect 5) (perfect-IsAvl 5) (omega (arith, perfect-height 5))

two-IsAvl : IsAvl two.root
two-IsAvl = rw two-pair pair-IsAvl

length-stack-le-32_example : length (after 1 (it_start (some two))).stack ≤ 32
length-stack-le-32_example = length-stack-le-32 two 1 two-IsAvl (omega (arith, two-length))
