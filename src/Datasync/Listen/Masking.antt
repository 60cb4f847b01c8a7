-- ===== src/Datasync/Listen/Masking.antt =====
-- lib/datasync/listen/listen_registry.c: an item below a live one is masked, a lost connection
-- leaves no item active, and a removed item must not be answered.
use webcom_sdk_c.Avl.Sorted.{list_get, list_remove}
use webcom_sdk_c.Compare.{Cmp}
use webcom_sdk_c.Datasync.Listen.Effects.{
  suspend, suspend_all, mask, mask_run, listen_result, set_status,
}
use webcom_sdk_c.Datasync.Listen.{
  pending, active, Item, Registry, starts_with, is_live, key, get, is_live_at, masked_below,
  is_masked, unref_ex,
}
use webcom_sdk_c.Datasync.{Parts, Net}
use webcom_sdk_c.Prelude.{
  ℕ, zero, suc, ◌<◌, ◌≡◌, ◌≢◌, ◌↔◌, refl, Bool, true, false, none, some, List, [], ◌∷◌, ◌++◌, ◌==◌,
  if◌then◌else◌, map, length, take, All, Bool-cases, inl, inr, arith, append_assoc, append-nil, not,
  ◌&&◌,
}

-- Neither active nor waiting for the server's answer.
abbrev pub IsQuiet : Item → Type 0
IsQuiet li = (li.status ≢ active) × (li.status ≢ pending)

suspend-IsQuiet : (li : Item) → IsQuiet (suspend li)
unfolding suspend set_status
suspend-IsQuiet li = ground arith

map-IsQuiet : (items : List Item) → All IsQuiet (map suspend items)
map-IsQuiet [] = tt
map-IsQuiet (li ∷ items) = (suspend-IsQuiet li, map-IsQuiet items)

-- After the suspension no item is active or pending.
pub suspend_all-IsQuiet : (lr : Registry) → All IsQuiet (suspend_all lr).items
unfolding suspend_all
suspend_all-IsQuiet lr = map-IsQuiet lr.items

module _ (c : Cmp Item) where
  -- A proper prefix of `before ++ rest`, `before` at least, whose item is live.
  abbrev pub LiveAbove : List Item → Parts → Parts → Type 0
  LiveAbove items before rest =
      (n : ℕ) × (n < length rest) × (is_live_at c items (before ++ take n rest) ≡ true)

  masked_below_sound :
      (items : List Item) (before rest : Parts)
      → masked_below c items before rest ≡ true
      → LiveAbove items before rest
  unfolding masked_below
  masked_below_sound items before [] e = absurd (ground arith)
  masked_below_sound items before (part ∷ rest) e = elim (Bool-cases (is_live_at c items before)) [
    | inl h ↦ (0, omega arith, rw (append-nil before) h)
    | inr h ↦
        let later : masked_below c items (before ++ part ∷ []) rest ≡ true = ground arith in
        let (n, l, live) = masked_below_sound items (before ++ part ∷ []) rest later in
        (suc n, omega arith, rw (append_assoc before (part ∷ []) (take n rest)) at live)
  ]

  masked_below_complete :
      (items : List Item) (before rest : Parts) (n : ℕ)
      → n < length rest
      → is_live_at c items (before ++ take n rest) ≡ true
      → masked_below c items before rest ≡ true
  unfolding masked_below
  masked_below_complete items before [] n h e = absurd (omega arith)
  masked_below_complete items before (part ∷ rest) zero h e =
      let now : is_live_at c items before ≡ true = rw (append-nil before) at e in rw now
  masked_below_complete items before (part ∷ rest) (suc n) h e =
      let later : is_live_at c items ((before ++ part ∷ []) ++ take n rest) ≡ true =
        rw (append_assoc before (part ∷ []) (take n rest)) e in
      let ih = masked_below_complete items (before ++ part ∷ []) rest n (omega arith) later in
      ground arith

  -- `is_masked` holds exactly if an item at a proper prefix of the path is live.
  pub is_masked-LiveAbove :
      (items : List Item) (path : Parts) → (is_masked c items path ≡ true) ↔ LiveAbove items [] path
  unfolding is_masked
  is_masked-LiveAbove items path =
      (masked_below_sound items [] path, λ w. masked_below_complete items [] path w.0 w.1 w.2)

  -- Of the items from the head of the list on that lie below the path, none is live.
  unfoldable pub none_live : Parts → List Item → Bool
  none_live path [] = true
  none_live path (li ∷ items) =
      let more = not (is_live li.status) && none_live path items in
      if starts_with li.path path then more else true

  mask-dead :
      (written : ℕ → Bool) (li : Item) (net : Net)
      → (is_live (mask written li net).0.status ≡ false) × ((mask written li net).0.path ≡ li.path)
  unfolding mask set_status is_live
  mask-dead written li net = ground arith

  -- After the masking of a path, no item of the run of items below it is live.
  pub mask_run-none_live :
      (written : ℕ → Bool) (path : Parts) (items : List Item) (net : Net)
      → none_live path (mask_run written path items net).0 ≡ true
  unfolding mask_run none_live
  mask_run-none_live written path [] net = refl
  mask_run-none_live written path (li ∷ items) net =
      let ih = mask_run-none_live written path items (mask written li net).1 in
      let dead = mask-dead written li net in
      elim (Bool-cases (starts_with li.path path)) [
        | inl h ↦ rw (h, mask_run) (rw (dead.1, h, dead.0, none_live) ih)
        | inr h ↦ rw (h, mask_run) (rw (h, none_live))
      ]

-- A response to a request whose item is gone cannot be delivered, and only such a one.
pub listen_result-none :
    (addr : ℕ) (ok : Bool) (items : List Item)
    → (listen_result addr ok items ≡ none) ↔ All (λ li. li.addr ≢ addr) items
unfolding listen_result
listen_result-none addr ok [] = ground arith
listen_result-none addr ok (li ∷ items) = ground (arith, listen_result-none addr ok items)

-- How many items have an address.
unfoldable pub at_addr : ℕ → List Item → ℕ
at_addr addr [] = 0
at_addr addr (li ∷ items) = let n = at_addr addr items in if li.addr == addr then suc n else n

at_addr-zero :
    (addr : ℕ) (ok : Bool) (items : List Item)
    → at_addr addr items ≡ 0
    → listen_result addr ok items ≡ none
unfolding at_addr listen_result
at_addr-zero addr ok [] h = refl
at_addr-zero addr ok (li ∷ items) h = ground (arith, at_addr-zero addr ok items)

at_addr-list_remove :
    (c : Cmp Item) (k : Item) (items : List Item) {li : Item}
    → list_get c k items ≡ some li
    → at_addr li.addr items ≡ suc (at_addr li.addr (list_remove c k items))
unfolding at_addr list_get list_remove
at_addr-list_remove c k [] h = absurd (ground arith)
at_addr-list_remove c k (x ∷ items) {li} h = ground (arith, at_addr-list_remove c k items {li = li})

-- Once the last reference to a path is dropped, whose item is the only one at its address, no item is
-- at that address, so the answer to a listen request of the item would be written to free memory.
pub unref_ex-dangles :
    (c : Cmp Item) (lr lr' : Registry) (path : Parts) (n : ℕ) (ok : Bool) {li : Item}
    → get c lr.items path ≡ some li
    → at_addr li.addr lr.items ≡ 1
    → unref_ex c lr path n ≡ some (lr', true)
    → listen_result li.addr ok lr'.items ≡ none
unfolding unref_ex
unref_ex-dangles c lr lr' path n ok {li} g one e =
    let gone : lr'.items ≡ list_remove c (key path) lr.items = ground arith in
    let fewer = at_addr-list_remove c (key path) lr.items {li = li} (unfold get in g) in
    rw gone (at_addr-zero li.addr ok (list_remove c (key path) lr.items) (omega arith))
