-- ===== src/Datasync/Listen.antt =====
-- lib/datasync/listen/listen_registry.c: which paths the client listens to. The tree of items is
-- the sorted list that it stands for: `avl_get`, `avl_insert`, `avl_remove` and the iterators are
-- the list's operations, as the modules below `Avl` prove.
pub mod Effects
pub mod Masking
use Prim.Native.Nat.Ordering.{lt, eq, gt}
use webcom_sdk_c.Avl.Sorted.{list_get, list_insert, list_remove}
use webcom_sdk_c.Compare.{Cmp}
use webcom_sdk_c.Datasync.Request.{request}
use webcom_sdk_c.Datasync.{
  CnxState, connected, Parts, Action, listen, unlisten, Callback, on_listen_result, Net,
}
use webcom_sdk_c.Path.{str_eq, same_parts}
use webcom_sdk_c.Prelude.{
  ℕ, ◌+◌, ◌-◌, ◌%◌, Bool, true, false, ◌||◌, Option, none, some, List, [], ◌∷◌, ◌++◌, ◌==◌, ltb,
  leb, if◌then◌else◌, length, u32_mod, ◌&&◌,
}

-- `enum listen_status`
pub data Status : Type 0 where
  unref required removed pending active failed masked : Status

-- `struct listen_item`; `addr` is its address, by which a request's `user` pointer names it.
pub record Item : Type 0 where
  pub status : Status
  pub stamp : ℕ
  pub ref : ℕ
  pub path : Parts
  pub addr : ℕ

-- `struct listen_registry`, and the address of the next item to be allocated.
pub record Registry : Type 0 where
  pub items : List Item
  pub next_addr : ℕ

unfoldable pub starts_with : Parts → Parts → Bool
starts_with path prefix = leb (length prefix) (length path) && same_parts path prefix

-- LISTEN_ACTIVE, LISTEN_REQUIRED or LISTEN_PENDING
unfoldable pub is_live : Status → Bool
is_live active = true
is_live required = true
is_live pending = true
is_live _ = false

-- An item as a search key: only its path is read.
unfoldable pub key : Parts → Item
key path = record { status = unref; stamp = 0; ref = 0; path = path; addr = 0 }

module _ (c : Cmp Item) where
  unfoldable pub get : List Item → Parts → Option Item
  unfolding key
  get items path = list_get c (key path) items

  unfoldable pub is_live_at : List Item → Parts → Bool
  unfolding is_live
  is_live_at items path = elim (get items path) [ none ↦ false | some li ↦ is_live li.status ]

  -- The loop of `is_masked`: `before` is the prefix reached, and `rest` the parts after it.
  unfoldable pub masked_below : List Item → Parts → Parts → Bool
  masked_below items before [] = false
  masked_below items before (part ∷ rest) =
      is_live_at items before || masked_below items (before ++ part ∷ []) rest

  unfoldable pub is_masked : List Item → Parts → Bool
  unfolding masked_below
  is_masked items path = masked_below items [] path

  -- A write through the pointer that `avl_get` returned.
  unfoldable pub update_at : Parts → (Item → Item) → List Item → List Item
  update_at path f [] = []
  update_at path f (li ∷ items) = elim (c.cmp (key path) li) [
    | eq ↦ f li ∷ items
    | _ ↦ li ∷ update_at path f items
  ]

  -- The registry, and the item that was found or added.
  unfoldable pub add_ex : Registry → Parts → Registry × Item
  add_ex lr path = elim (get lr.items path) [
    | none ↦
        let li : Item = record {
          status = if is_masked lr.items path then masked else required;
          stamp = 0;
          ref = 1;
          path = path;
          addr = lr.next_addr;
        } in
        (record { items = list_insert c li lr.items; next_addr = lr.next_addr + 1 }, li)
    | some li ↦
        let li' : Item = record li { ref = (li.ref + 1) % u32_mod } in
        (record lr { items = update_at path (λ _. li') lr.items }, li')
  ]

  -- `none` is a failed `assert(li->ref >= n_unref)`.
  unfoldable pub unref_ex : Registry → Parts → ℕ → Option (Registry × Bool)
  unref_ex lr path n = elim (get lr.items path) [
    | none ↦ some (lr, false)
    | some li ↦
        if ltb li.ref n
        then none
        else if ltb 0 (li.ref - n)
        then some (
          record lr { items = update_at path (λ x. record x { ref = x.ref - n }) lr.items },
          false,
        )
        else some (record lr { items = list_remove c (key path) lr.items }, true)
  ]
